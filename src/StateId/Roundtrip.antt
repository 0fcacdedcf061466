-- ===== src/StateId/Roundtrip.antt =====
-- Escaping a message id and reading it back.
use webex_headless_messenger.Common.{
  ℕ, ◌/◌, ◌%◌, ◌<◌, ◌≡◌, refl, ap, ◌∙◌, inl, inr, true, false, Bool-cases, Option, some, List, [],
  ◌∷◌, All, arith, ◌==◌,
}
use webex_headless_messenger.Common.Text.{from_utf8}
use webex_headless_messenger.StateId.{
  is_plain, hex_digit, encode_state_id, hex_value, cons_some, escaped, decode_bytes,
  decode_state_id,
}

hex_value-hex_digit : (d : ℕ) → d < 16 → hex_value (hex_digit d) ≡ some d
unfolding hex_value hex_digit
hex_value-hex_digit d h = ground arith

plain_lem : (b : ℕ) → is_plain b ≡ true → (b == b'%') ≡ false
unfolding is_plain
plain_lem b h = ground arith

decode_bytes-plain :
    (b : ℕ) (bytes : List ℕ)
    → (b == b'%') ≡ false
    → decode_bytes (b ∷ bytes) ≡ cons_some b (decode_bytes bytes)
unfolding decode_bytes
decode_bytes-plain b [] h = rw h refl
decode_bytes-plain b (c ∷ []) h = rw h refl
decode_bytes-plain b (c ∷ d ∷ bytes) h = rw (h, decode_bytes) refl

decode_bytes-escaped :
    (c d : ℕ) (bytes : List ℕ)
    → decode_bytes (b'%' ∷ c ∷ d ∷ bytes) ≡ escaped (hex_value c) (hex_value d) (decode_bytes bytes)
unfolding decode_bytes
decode_bytes-escaped c d bytes = refl

escaped-byte :
    (b : ℕ) (rest : Option (List ℕ))
    → b < 256
    → escaped (hex_value (hex_digit (b / 16))) (hex_value (hex_digit (b % 16))) rest
      ≡ cons_some b rest
escaped-byte b rest h =
    rw (hex_value-hex_digit (b / 16) (omega arith))
      (rw (hex_value-hex_digit (b % 16) (omega arith)) (ap (λ x. cons_some x rest) (omega arith)))

decode_bytes-encode_state_id :
    (bytes : List ℕ) → All (λ b. b < 256) bytes → decode_bytes (encode_state_id bytes) ≡ some bytes
unfolding encode_state_id
decode_bytes-encode_state_id [] h = unfold decode_bytes in refl
decode_bytes-encode_state_id (b ∷ bytes) h = elim (Bool-cases (is_plain b)) [
  | inl e ↦ rw e (
      decode_bytes-plain b (encode_state_id bytes) (plain_lem b e)
      ∙ ap (cons_some b) (decode_bytes-encode_state_id bytes h.1))
  | inr e ↦ rw e (
      decode_bytes-escaped (hex_digit (b / 16)) (hex_digit (b % 16)) (encode_state_id bytes)
      ∙ escaped-byte b (decode_bytes (encode_state_id bytes)) h.0
      ∙ ap (cons_some b) (decode_bytes-encode_state_id bytes h.1))
]

-- The escaped form of the bytes of a text reads back as the text.
pub decode_state_id-encode_state_id :
    (bytes text : List ℕ)
    → All (λ b. b < 256) bytes
    → from_utf8 bytes ≡ some text
    → decode_state_id (encode_state_id bytes) ≡ some text
unfolding decode_state_id
decode_state_id-encode_state_id bytes text h e =
    rw (decode_bytes-encode_state_id bytes h, decode_state_id) e
