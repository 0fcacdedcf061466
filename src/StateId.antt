-- ===== src/StateId.antt =====
-- examples/account_bot.rs: `encode_state_id` and `decode_state_id`, the escaped form of a message id in the
-- bot's own state file. A text is its UTF-8 bytes; the escaped form is ASCII.
pub mod Roundtrip
use webex_headless_messenger.Common.{
  ℕ, ◌+◌, ◌-◌, ◌*◌, ◌/◌, ◌%◌, Bool, true, false, ◌&&◌, ◌||◌, Option, none, some, List, [], ◌∷◌, leb,
  ltb, ◌==◌, if◌then◌else◌,
}
use webex_headless_messenger.Common.Text.{from_utf8}

-- The bytes that stand for themselves.
unfoldable pub is_plain : ℕ → Bool
is_plain b =
    (leb b'A' b && leb b b'Z')
    || (leb b'a' b && leb b b'z')
    || (leb b'0' b && leb b b'9')
    || b == b'.'
    || b == b'_'
    || b == b'-'
    || b == b'~'

-- A digit of `{byte:02X}`.
unfoldable pub hex_digit : ℕ → ℕ
hex_digit d = if ltb d 10 then b'0' + d else b'A' + (d - 10)

unfoldable pub encode_state_id : List ℕ → List ℕ
encode_state_id [] = []
encode_state_id (byte ∷ bytes) =
    let rest = encode_state_id bytes in
    if is_plain byte
    then byte ∷ rest
    else b'%' ∷ hex_digit (byte / 16) ∷ hex_digit (byte % 16) ∷ rest

unfoldable pub hex_value : ℕ → Option ℕ
hex_value byte =
    if leb b'0' byte && leb byte b'9'
    then some (byte - b'0')
    else if leb b'a' byte && leb byte b'f'
    then some (byte - b'a' + 10)
    else if leb b'A' byte && leb byte b'F'
    then some (byte - b'A' + 10)
    else none

abbrev pub cons_some : ℕ → Option (List ℕ) → Option (List ℕ)
cons_some b none = none
cons_some b (some bs) = some (b ∷ bs)

-- `(high << 4) | low` in front of what follows.
abbrev pub escaped : Option ℕ → Option ℕ → Option (List ℕ) → Option (List ℕ)
escaped (some high) (some low) rest = cons_some (high * 16 + low) rest
escaped (some high) none rest = none
escaped none low rest = none

-- The `while` loop.
unfoldable pub decode_bytes : List ℕ → Option (List ℕ)
decode_bytes [] = some []
decode_bytes (b ∷ []) = if b == b'%' then none else some (b ∷ [])
decode_bytes (b ∷ c ∷ []) =
    let rest = decode_bytes (c ∷ []) in if b == b'%' then none else cons_some b rest
decode_bytes (b ∷ c ∷ d ∷ bytes) = elim (b == b'%') [
  | true ↦ escaped (hex_value c) (hex_value d) (decode_bytes bytes)
  | false ↦ cons_some b (decode_bytes (c ∷ d ∷ bytes))
]

unfoldable pub decode_state_id : List ℕ → Option (List ℕ)
decode_state_id encoded = elim (decode_bytes encoded) [
  | none ↦ none
  | some decoded ↦ from_utf8 decoded
]
