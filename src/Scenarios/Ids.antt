-- ===== src/Scenarios/Ids.antt =====
-- An escaped message id.
use webex_headless_messenger.Common.{◌≡◌, refl, some, [], ◌∷◌, arith}
use webex_headless_messenger.Common.Text.{from_utf8, utf8_loop, utf8_byte}
use webex_headless_messenger.StateId.{encode_state_id, decode_state_id}
use webex_headless_messenger.StateId.Roundtrip.{decode_state_id-encode_state_id}

-- "a/é" has the byte of "/" and two bytes that are not ASCII.
decode_state_id-encode_state_id_example :
    decode_state_id (encode_state_id (97 ∷ 47 ∷ 0xC3 ∷ 0xA9 ∷ [])) ≡ some (97 ∷ 47 ∷ 0xE9 ∷ [])
unfolding from_utf8 utf8_loop utf8_byte
decode_state_id-encode_state_id_example =
    decode_state_id-encode_state_id (97 ∷ 47 ∷ 0xC3 ∷ 0xA9 ∷ []) (97 ∷ 47 ∷ 0xE9 ∷ [])
      (omega arith, (omega arith, (omega arith, (omega arith, tt)))) refl
