-- ===== src/Ledger.antt =====
-- internal/service/query_match.go, merkleRoot: the root over the hashes of a segment. `hash` is
-- domain.HashBytes, SHA-256 in hexadecimal. The loop runs on fuel, and each round halves the level.
pub mod Roots
pub mod Models
pub mod Chain
pub mod Ingest
pub mod Keys
pub mod Seal
pub mod Verify
pub mod Linked
pub mod Archiving
use snaplink_audit_governanc.Prelude.{
  ℕ, zero, suc, String, Option, none, some, List, [], ◌∷◌, length, ◌+++◌,
}

-- One round: neighbours are hashed together, and a last one that is alone with itself.
unfoldable pub next_level : (String → String) → List String → List String
next_level hash [] = []
next_level hash (left ∷ []) = hash (left +++ left) ∷ []
next_level hash (left ∷ right ∷ level) = hash (left +++ right) ∷ next_level hash level

unfoldable pub merkle_loop : (String → String) → ℕ → List String → Option String
merkle_loop hash fuel [] = none
merkle_loop hash fuel (root ∷ []) = some root
merkle_loop hash zero (left ∷ right ∷ level) = none
merkle_loop hash (suc fuel) (left ∷ right ∷ level) =
    merkle_loop hash fuel (next_level hash (left ∷ right ∷ level))

unfoldable pub merkle_root : (String → String) → List String → Option String
unfolding merkle_loop
merkle_root hash [] = some (hash "")
merkle_root hash (first ∷ hashes) = merkle_loop hash (length (first ∷ hashes)) (first ∷ hashes)
