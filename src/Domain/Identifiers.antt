-- ===== src/Domain/Identifiers.antt =====
-- internal/domain/identifiers.go, and the composite keys of internal/store/store.go. A text is the
-- list of its runes, and `byte_len` the length of its UTF-8 encoding.
-- `unicode.IsControl` and `unicode.IsSpace` are written out from the Unicode tables of Go.
pub mod Framing
use snaplink_audit_governanc.Prelude.{
  ℕ, ◌+◌, Bool, true, false, ◌&&◌, ◌||◌, Option, none, some, List, [], ◌∷◌, ◌++◌, any, eqb, leb,
  ltb, if◌then◌else◌,
}
use snaplink_audit_governanc.Prelude.Texts.{codes}
use snaplink_audit_governanc.Domain.Errors.{Result, ok, err, invalid, ◌>>◌}

-- category Cc
unfoldable pub is_control : ℕ → Bool
is_control r = leb r 0x1f || leb 0x7f r && leb r 0x9f

-- property White_Space
unfoldable pub is_space : ℕ → Bool
is_space r =
    leb 0x09 r && leb r 0x0d
    || eqb r 0x20
    || eqb r 0x85
    || eqb r 0xa0
    || eqb r 0x1680
    || leb 0x2000 r && leb r 0x200a
    || eqb r 0x2028
    || eqb r 0x2029
    || eqb r 0x202f
    || eqb r 0x205f
    || eqb r 0x3000

-- The `switch` on one rune.
unfoldable pub is_bad_rune : ℕ → Bool
unfolding is_control is_space
is_bad_rune r = is_control r || is_space r || eqb r b'/' || eqb r b'\\'

unfoldable pub valid_key_component : List ℕ → Result (Unit {0})
valid_key_component [] = ok tt
valid_key_component (r ∷ rs) = if is_bad_rune r then err invalid else valid_key_component rs

abbrev pub max_archive_component_bytes : ℕ
max_archive_component_bytes = 85

-- Bytes of the UTF-8 encoding of a rune.
unfoldable pub rune_len : ℕ → ℕ
rune_len r = if leb r 0x7f then 1 else if leb r 0x7ff then 2 else if leb r 0xffff then 3 else 4

unfoldable pub byte_len : List ℕ → ℕ
byte_len [] = 0
byte_len (r ∷ rs) = rune_len r + byte_len rs

unfoldable pub valid_archive_component_length : List ℕ → Result (Unit {0})
valid_archive_component_length value =
    if ltb max_archive_component_bytes (byte_len value) then err invalid else ok tt

abbrev pub has_colon : List ℕ → Bool
has_colon value = any (λ r. eqb r b':') value

unfoldable pub valid_stream_component : List ℕ → Result (Unit {0})
valid_stream_component value = do
  valid_key_component value
  if has_colon value then err invalid else valid_archive_component_length value

unfoldable pub valid_tenant_id_component : List ℕ → Result (Unit {0})
valid_tenant_id_component value = do
  valid_key_component value
  if has_colon value then err invalid else valid_archive_component_length value

-- internal/service/scope.go
unfoldable pub require_tenant_scope : List ℕ → Result (Unit {0})
require_tenant_scope [] = err invalid
require_tenant_scope (r ∷ rs) = valid_tenant_id_component (r ∷ rs)

abbrev pub key_separator : ℕ
key_separator = 0x1f

-- EventKey, StreamKey and SourceKey
unfoldable pub event_key : List ℕ → List ℕ → List ℕ
event_key tenant id = tenant ++ key_separator ∷ id

-- strings.Cut at one character
unfoldable pub cut : ℕ → List ℕ → Option (List ℕ × List ℕ)
cut c [] = none
cut c (r ∷ rs) =
    let rest = cut c rs in
    if eqb r c
    then some ([], rs)
    else elim rest [ none ↦ none | some (before, after) ↦ some (r ∷ before, after) ]

unfoldable pub split_tenant_key : List ℕ → Option (List ℕ × List ℕ)
unfolding cut
split_tenant_key key = elim (cut key_separator key) [
  | none ↦ none
  | some (tenant, rest) ↦ if any (λ r. eqb r key_separator) rest then none else some (tenant, rest)
]

abbrev pub non_empty : List ℕ → Bool
non_empty [] = false
non_empty (r ∷ rs) = true

-- `":aggregate:"`, `":operation:"`, `":source:"`
abbrev pub aggregate_word : List ℕ
aggregate_word = codes ":aggregate:"

abbrev pub operation_word : List ℕ
operation_word = codes ":operation:"

abbrev pub source_word : List ℕ
source_word = codes ":source:"

-- Event.Stream of internal/domain/models.go; the arguments are the event's stream, tenant, aggregate
-- type and identifier, operation and source system.
unfoldable pub stream : List ℕ → List ℕ → List ℕ → List ℕ → List ℕ → List ℕ → List ℕ
stream stream_id tenant aggregate_type aggregate_id operation source =
    if non_empty stream_id
    then stream_id
    else if non_empty aggregate_type && non_empty aggregate_id
    then tenant ++ (aggregate_word ++ (aggregate_type ++ b':' ∷ aggregate_id))
    else if non_empty operation
    then tenant ++ (operation_word ++ operation)
    else tenant ++ (source_word ++ source)
