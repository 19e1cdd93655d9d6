-- ===== src/Archive/KeyComponent/RoundTrip.antt =====
-- EncodeKeyComponent against DecodeKeyComponent, byte by byte.
use snaplink_audit_governanc.Prelude.{
  ℕ, ◌/◌, ◌%◌, ◌<◌, ◌≡◌, refl, sym, ap, ◌∙◌, ◌≢◌, ◌⊎◌, inl, inr, true, false, some, List, [], ◌∷◌,
  All, Bool-cases, eqb, eqb_iff, arith,
}
use snaplink_audit_governanc.Prelude.Texts.{bytes_eq}
use snaplink_audit_governanc.Archive.KeyComponent.{
  is_safe_component_byte, hex_upper_digit, encode_byte, encode_bytes, encode_key_component,
  hex_digit_value, decode_safe, decode_bytes, decode_key_component,
}

abbrev pub IsByte : ℕ → Type 0
IsByte c = c < 256

hex_digit_value-hex_upper_digit : (d : ℕ) → d < 16 → hex_digit_value (hex_upper_digit d) ≡ some d
unfolding hex_digit_value hex_upper_digit
hex_digit_value-hex_upper_digit d h = ground arith

decode_bytes-safe :
    (c : ℕ) (s : List ℕ)
    → is_safe_component_byte c ≡ true
    → decode_bytes (c ∷ s) ≡ decode_safe c (decode_bytes s)
unfolding decode_bytes
decode_bytes-safe c [] h = ground arith
decode_bytes-safe c (d ∷ []) h = ground arith
decode_bytes-safe c (d ∷ e ∷ s) h = ground arith

decode_bytes-escape :
    (c : ℕ) (s t : List ℕ)
    → IsByte c
    → decode_bytes s ≡ some t
    → decode_bytes (b'%' ∷ hex_upper_digit (c / 16) ∷ hex_upper_digit (c % 16) ∷ s) ≡ some (c ∷ t)
unfolding decode_bytes
decode_bytes-escape c s t b h =
    ground
      (arith, hex_digit_value-hex_upper_digit (c / 16), hex_digit_value-hex_upper_digit (c % 16))

encode_byte-safe : (c : ℕ) (s : List ℕ) → is_safe_component_byte c ≡ true → encode_byte c s ≡ c ∷ s
unfolding encode_byte
encode_byte-safe c s h = rw h

encode_byte-unsafe :
    (c : ℕ) (s : List ℕ)
    → is_safe_component_byte c ≡ false
    → encode_byte c s ≡ b'%' ∷ hex_upper_digit (c / 16) ∷ hex_upper_digit (c % 16) ∷ s
unfolding encode_byte
encode_byte-unsafe c s h = rw h

decode_bytes-encode_byte :
    (c : ℕ) (s t : List ℕ)
    → IsByte c
    → decode_bytes s ≡ some t
    → decode_bytes (encode_byte c s) ≡ some (c ∷ t)
unfolding decode_safe
decode_bytes-encode_byte c s t b h = elim (Bool-cases (is_safe_component_byte c)) [
  | inl safe ↦ rw (encode_byte-safe c s safe, decode_bytes-safe c s safe, h)
  | inr unsafe ↦ rw (encode_byte-unsafe c s unsafe) (decode_bytes-escape c s t b h)
]

decode_bytes-encode_bytes : (s : List ℕ) → All IsByte s → decode_bytes (encode_bytes s) ≡ some s
unfolding encode_bytes
decode_bytes-encode_bytes [] h = unfold decode_bytes in refl
decode_bytes-encode_bytes (c ∷ s) h =
    decode_bytes-encode_byte c (encode_bytes s) s h.0 (decode_bytes-encode_bytes s h.1)

-- Only the escape of the empty component is a lone percent sign.
encode_byte-ne-marker : (c : ℕ) (s : List ℕ) → bytes_eq (encode_byte c s) (b'%' ∷ []) ≡ false
unfolding encode_byte
encode_byte-ne-marker c [] = ground arith
encode_byte-ne-marker c (d ∷ s) = ground arith

decode_key_component-bytes :
    (c : ℕ) (s : List ℕ)
    → All IsByte (c ∷ s)
    → decode_key_component (encode_bytes (c ∷ s)) ≡ some (c ∷ s)
unfolding decode_key_component encode_bytes
decode_key_component-bytes c s h =
    rw (encode_byte-ne-marker c (encode_bytes s)) (decode_bytes-encode_bytes (c ∷ s) h)

decode_key_component-empty : decode_key_component (encode_key_component []) ≡ some []
unfolding decode_key_component encode_key_component
decode_key_component-empty = refl

decode_key_component-dot : decode_key_component (b'%' ∷ b'2' ∷ b'E' ∷ []) ≡ some (b'.' ∷ [])
unfolding decode_key_component
decode_key_component-dot = refl

decode_key_component-dot_dot :
    decode_key_component (b'%' ∷ b'2' ∷ b'E' ∷ b'%' ∷ b'2' ∷ b'E' ∷ []) ≡ some (b'.' ∷ b'.' ∷ [])
unfolding decode_key_component
decode_key_component-dot_dot = refl

-- A value that is not one of the three special ones is encoded byte by byte.
encode_key_component-bytes :
    (c : ℕ) (s : List ℕ)
    → bytes_eq (c ∷ s) (b'.' ∷ []) ≡ false
    → bytes_eq (c ∷ s) (b'.' ∷ b'.' ∷ []) ≡ false
    → encode_key_component (c ∷ s) ≡ encode_bytes (c ∷ s)
unfolding encode_key_component
encode_key_component-bytes c s one two = rw (one, two)

-- The two traversal segments, and any other text that is not empty.
data Shape : List ℕ → Type 0 where
  dot : Shape (b'.' ∷ [])
  dot_dot : Shape (b'.' ∷ b'.' ∷ [])
  plain :
      (c : ℕ) (s : List ℕ)
      → bytes_eq (c ∷ s) (b'.' ∷ []) ≡ false
      → bytes_eq (c ∷ s) (b'.' ∷ b'.' ∷ []) ≡ false
      → Shape (c ∷ s)

Shape-of : (c : ℕ) (s : List ℕ) → Shape (c ∷ s)
Shape-of a [] = elim (Bool-cases (eqb a b'.')) [
  | inl e ↦ rw ((eqb_iff a b'.').0 e) dot
  | inr e ↦ plain a [] (rw e) (rw e)
]
Shape-of a (b ∷ []) = elim (Bool-cases (eqb a b'.')) [
  | inl e ↦ elim (Bool-cases (eqb b b'.')) [
    | inl f ↦ rw ((eqb_iff a b'.').0 e, (eqb_iff b b'.').0 f) dot_dot
    | inr f ↦ plain a (b ∷ []) (rw e) (rw (e, f))
  ]
  | inr e ↦ plain a (b ∷ []) (rw e) (rw e)
]
Shape-of a (b ∷ c ∷ s) = plain a (b ∷ c ∷ s) (ground arith) (ground arith)

decode_key_component-Shape :
    {value : List ℕ}
    → Shape value
    → All IsByte value
    → decode_key_component (encode_key_component value) ≡ some value
decode_key_component-Shape dot h = unfold encode_key_component in decode_key_component-dot
decode_key_component-Shape dot_dot h = unfold encode_key_component in decode_key_component-dot_dot
decode_key_component-Shape (plain c s one two) h =
    rw (encode_key_component-bytes c s one two) (decode_key_component-bytes c s h)

-- Decoding an encoded component gives the component back, whatever its bytes: the empty one, the
-- traversal segments "." and ".." and every byte outside the safe alphabet included.
pub decode_key_component-encode_key_component :
    (value : List ℕ)
    → All IsByte value
    → decode_key_component (encode_key_component value) ≡ some value
decode_key_component-encode_key_component [] h = decode_key_component-empty
decode_key_component-encode_key_component (c ∷ s) h = decode_key_component-Shape (Shape-of c s) h

-- An encoded byte is safe or belongs to an escape; in particular it is no path separator.
abbrev pub IsKeyByte : ℕ → Type 0
IsKeyByte c = (is_safe_component_byte c ≡ true) ⊎ (c ≡ b'%')

hex_upper_digit-IsKeyByte : (d : ℕ) → d < 16 → IsKeyByte (hex_upper_digit d)
unfolding hex_upper_digit is_safe_component_byte
hex_upper_digit-IsKeyByte d h = inl (ground arith)

encode_bytes-IsKeyByte : (s : List ℕ) → All IsByte s → All IsKeyByte (encode_bytes s)
unfolding encode_bytes
encode_bytes-IsKeyByte [] h = tt
encode_bytes-IsKeyByte (c ∷ s) h = elim (Bool-cases (is_safe_component_byte c)) [
  | inl safe ↦
      rw (encode_byte-safe c (encode_bytes s) safe) (inl safe, encode_bytes-IsKeyByte s h.1)
  | inr unsafe ↦ rw (encode_byte-unsafe c (encode_bytes s) unsafe) (
    inr refl,
    (
      hex_upper_digit-IsKeyByte (c / 16) (let b = h.0 in omega arith),
      (hex_upper_digit-IsKeyByte (c % 16) (omega arith), encode_bytes-IsKeyByte s h.1),
    ),
  )
]

some-eq_of : {u v : List ℕ} → some u ≡ some v → u ≡ v
some-eq_of e = cc

-- Two components with one encoding are equal: distinct identifiers have distinct archive keys.
pub encode_key_component-injective :
    (u v : List ℕ)
    → All IsByte u
    → All IsByte v
    → encode_key_component u ≡ encode_key_component v
    → u ≡ v
encode_key_component-injective u v hu hv e = some-eq_of (
    sym (decode_key_component-encode_key_component u hu)
    ∙ ap decode_key_component e
    ∙ decode_key_component-encode_key_component v hv)

-- A text that decodes to itself and does not encode to itself is no encoding.
not_encoded :
    (w v : List ℕ)
    → decode_key_component w ≡ some w
    → encode_key_component w ≢ w
    → All IsByte v
    → encode_key_component v ≢ w
not_encoded w v d n h e = n (
    ap encode_key_component (
      some-eq_of
        (sym d ∙ ap decode_key_component (sym e) ∙ decode_key_component-encode_key_component v h))
    ∙ e)

encode_key_component-bytes_IsKeyByte :
    (v : List ℕ) → All IsByte v → All IsKeyByte (encode_key_component v)
unfolding encode_key_component is_safe_component_byte
encode_key_component-bytes_IsKeyByte [] h = (inr refl, tt)
encode_key_component-bytes_IsKeyByte (c ∷ s) h = elim (Bool-cases (bytes_eq (c ∷ s) (b'.' ∷ []))) [
  | inl one ↦ rw one (inr refl, (inl refl, (inl refl, tt)))
  | inr one ↦ elim (Bool-cases (bytes_eq (c ∷ s) (b'.' ∷ b'.' ∷ []))) [
    | inl two ↦
        rw (one, two) (inr refl, (inl refl, (inl refl, (inr refl, (inl refl, (inl refl, tt))))))
    | inr two ↦ rw (one, two) (encode_bytes-IsKeyByte (c ∷ s) h)
  ]
]

-- An encoded component is a path segment that stays below its directory: it is not empty, it is
-- neither "." nor "..", and each of its bytes is a safe one or part of an escape, so no separator.
pub encode_key_component_contained :
    (v : List ℕ)
    → All IsByte v
    → All IsKeyByte (encode_key_component v)
      × (encode_key_component v ≢ [])
      × (encode_key_component v ≢ b'.' ∷ [])
      × (encode_key_component v ≢ b'.' ∷ b'.' ∷ [])
unfolding decode_key_component encode_key_component
encode_key_component_contained v h = (
  encode_key_component-bytes_IsKeyByte v h,
  not_encoded [] v refl (λ e. cc) h,
  not_encoded (b'.' ∷ []) v refl (λ e. cc) h,
  not_encoded (b'.' ∷ b'.' ∷ []) v refl (λ e. cc) h,
)
