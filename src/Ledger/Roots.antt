-- ===== src/Ledger/Roots.antt =====
-- The fuel of merkleRoot's loop.
use snaplink_audit_governanc.Prelude.{
  ℕ, zero, suc, ◌≤◌, ◌≡◌, refl, String, some, List, [], ◌∷◌, ◌+++◌, length, arith,
}
use snaplink_audit_governanc.Ledger.{next_level, merkle_loop, merkle_root}

-- A level shrinks, unless a single node is left.
next_level-length :
    (hash : String → String) (level : List String) → length (next_level hash level) ≤ length level
unfolding next_level
next_level-length hash [] = omega arith
next_level-length hash (left ∷ []) = omega arith
next_level-length hash (left ∷ right ∷ level) = omega (arith, next_level-length hash level)

merkle_loop_returns :
    (hash : String → String) (fuel : ℕ) (first : String) (level : List String)
    → length (first ∷ level) ≤ suc fuel
    → (root : String) × (merkle_loop hash fuel (first ∷ level) ≡ some root)
unfolding merkle_loop next_level
merkle_loop_returns hash fuel first [] h = (first, refl)
merkle_loop_returns hash zero first (right ∷ level) h = ground (arith, h)
merkle_loop_returns hash (suc fuel) first (right ∷ level) h =
    merkle_loop_returns hash fuel (hash (first +++ right)) (next_level hash level)
      (omega (arith, h, next_level-length hash level))

-- The loop ends with a root for every list of hashes: a fuel of their number is enough.
pub merkle_root_returns :
    (hash : String → String) (hashes : List String)
    → (root : String) × (merkle_root hash hashes ≡ some root)
unfolding merkle_root
merkle_root_returns hash [] = (hash "", refl)
merkle_root_returns hash (first ∷ hashes) =
    merkle_loop_returns hash (length (first ∷ hashes)) first hashes (omega arith)
