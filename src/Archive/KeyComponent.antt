-- ===== src/Archive/KeyComponent.antt =====
-- internal/fsutil/fsutil.go: the framing of archive key components. A component is the list of its
-- bytes.
pub mod RoundTrip
use snaplink_audit_governanc.Prelude.{
  ℕ, ◌+◌, ◌-◌, ◌*◌, ◌/◌, ◌%◌, Bool, ◌&&◌, ◌||◌, Option, none, some, List, [], ◌∷◌, eqb, leb,
  if◌then◌else◌,
}
use snaplink_audit_governanc.Prelude.Texts.{bytes_eq}

unfoldable pub is_safe_component_byte : ℕ → Bool
is_safe_component_byte c =
    leb b'a' c && leb c b'z'
    || leb b'A' c && leb c b'Z'
    || leb b'0' c && leb c b'9'
    || eqb c b'-'
    || eqb c b'_'
    || eqb c b'.'

-- `hexUpperDigits[d]`
unfoldable pub hex_upper_digit : ℕ → ℕ
hex_upper_digit d = if leb d 9 then b'0' + d else b'A' + d - 10

encode_byte : ℕ → List ℕ → List ℕ
unfolding is_safe_component_byte hex_upper_digit
encode_byte c rest =
    if is_safe_component_byte c
    then c ∷ rest
    else b'%' ∷ hex_upper_digit (c / 16) ∷ hex_upper_digit (c % 16) ∷ rest

encode_bytes : List ℕ → List ℕ
unfolding encode_byte
encode_bytes [] = []
encode_bytes (c ∷ s) = encode_byte c (encode_bytes s)

unfoldable pub encode_key_component : List ℕ → List ℕ
unfolding encode_bytes
encode_key_component value =
    if bytes_eq value []
    then b'%' ∷ []
    else if bytes_eq value (b'.' ∷ [])
    then b'%' ∷ b'2' ∷ b'E' ∷ []
    else if bytes_eq value (b'.' ∷ b'.' ∷ [])
    then b'%' ∷ b'2' ∷ b'E' ∷ b'%' ∷ b'2' ∷ b'E' ∷ []
    else encode_bytes value

unfoldable pub hex_digit_value : ℕ → Option ℕ
hex_digit_value c =
    if leb b'0' c && leb c b'9'
    then some (c - b'0')
    else if leb b'a' c && leb c b'f'
    then some (c - b'a' + 10)
    else if leb b'A' c && leb c b'F'
    then some (c - b'A' + 10)
    else none

-- One pass of the decoder over an escape or a safe byte.
decode_escape : Option ℕ → Option ℕ → Option (List ℕ) → Option (List ℕ)
decode_escape (some hi) (some lo) (some rest) = some ((hi * 16 + lo) ∷ rest)
decode_escape _ _ _ = none

decode_safe : ℕ → Option (List ℕ) → Option (List ℕ)
decode_safe c none = none
decode_safe c (some rest) = some (c ∷ rest)

-- The loop; `none` is the error. An escape takes two more bytes.
decode_bytes : List ℕ → Option (List ℕ)
unfolding is_safe_component_byte hex_digit_value decode_escape decode_safe
decode_bytes [] = some []
decode_bytes (c ∷ []) = if is_safe_component_byte c then some (c ∷ []) else none
decode_bytes (c ∷ d ∷ []) =
    let rest = decode_bytes (d ∷ []) in
    if is_safe_component_byte c then decode_safe c rest else none
decode_bytes (c ∷ d ∷ e ∷ s) =
    let after_safe = decode_bytes (d ∷ e ∷ s) in
    let after_escape = decode_bytes s in
    if is_safe_component_byte c
    then decode_safe c after_safe
    else if eqb c b'%'
    then decode_escape (hex_digit_value d) (hex_digit_value e) after_escape
    else none

unfoldable pub decode_key_component : List ℕ → Option (List ℕ)
unfolding decode_bytes
decode_key_component value = if bytes_eq value (b'%' ∷ []) then some [] else decode_bytes value
