-- ===== src/Prelude/Tables.antt =====
-- A Go map from strings, as an association list: `m[k]`, `m[k] = v`, `delete(m, k)`, and the
-- `for range` loops that count entries.
use Prim.Native.Nat.{ℕ, ◌+◌}
use Prim.Native.String.{String}
use mathlib.Core.Path.{◌≡◌, refl}
use mathlib.Core.Bool.{Bool}
use mathlib.Core.List.{List, [], ◌∷◌}
use mathlib.Core.Option.{Option, none, some}
use native.Mathlib.Omega.{arith}
use text.Mathlib.Text.{◌==◌}
use text.Mathlib.TextEquality.{eq_iff}
use snaplink_audit_governanc.Prelude.Tests.{if◌then◌else◌, bit, is_some}

abbrev pub Table {ℓ} : Type ℓ → Type ℓ
Table V = List (String × V)

module _ {ℓ} {V : Type ℓ} where
  unfoldable pub lookup : String → Table V → Option V
  lookup k [] = none
  lookup k ((j, v) ∷ m) = if j == k then some v else lookup k m

  unfoldable pub insert : String → V → Table V → Table V
  insert key value [] = (key, value) ∷ []
  insert key value ((other, old) ∷ rest) =
      let later = insert key value rest in
      if other == key then (key, value) ∷ rest else (other, old) ∷ later

  unfoldable pub delete : String → Table V → Table V
  delete k [] = []
  delete k ((j, v) ∷ m) = let rest = delete k m in if j == k then rest else (j, v) ∷ rest

  -- A missing key reads as the zero value.
  abbrev pub get_or : String → V → Table V → V
  get_or k zero_value m = elim (lookup k m) [ none ↦ zero_value | some v ↦ v ]

  abbrev pub has : String → Table V → Bool
  has k m = is_some (lookup k m)

  unfoldable pub count : (V → Bool) → Table V → ℕ
  count p [] = 0
  count p ((j, v) ∷ m) = bit (p v) + count p m

  abbrev weight : (V → Bool) → Option V → ℕ
  weight p none = 0
  weight p (some v) = bit (p v)

  pub lookup-insert :
      (key asked : String) (value : V) (table : Table V)
      → lookup asked (insert key value table)
        ≡ (if key == asked then some value else lookup asked table)
  unfolding insert lookup
  lookup-insert key asked value [] = refl
  lookup-insert key asked value ((other, old) ∷ rest) =
      let later = lookup-insert key asked value rest in
      ground (arith, later, eq_iff other key, eq_iff key asked, eq_iff other asked)

  pub lookup-delete :
      (k j : String) (m : Table V) → lookup j (delete k m) ≡ (if k == j then none else lookup j m)
  unfolding lookup delete
  lookup-delete k j [] = ground arith
  lookup-delete k j ((i, v) ∷ m) =
      ground (arith, lookup-delete k j m, eq_iff i k, eq_iff i j, eq_iff k j)

  -- A write replaces what the key held in the count.
  pub count-insert :
      (p : V → Bool) (k : String) (v : V) (m : Table V)
      → count p (insert k v m) + weight p (lookup k m) ≡ count p m + bit (p v)
  unfolding lookup insert count
  count-insert p k v [] = omega arith
  count-insert p k v ((i, w) ∷ m) = ground (arith, eq_iff i k, count-insert p k v m)
