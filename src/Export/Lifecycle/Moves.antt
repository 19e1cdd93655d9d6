-- ===== src/Export/Lifecycle/Moves.antt =====
-- The life of an export: what one operation may do to the job of one key.
use snaplink_audit_governanc.Prelude.{
  ◌≡◌, refl, String, ℕ, [], ◌∷◌, arith, true, ◌||◌, Option, none, some, Table, lookup, insert,
  lookup-insert, ◌==◌, eq_iff, Bool-cases, inl, inr, arith,
}
use snaplink_audit_governanc.Domain.Models.{ExportJob, is_pending, is_running}
use snaplink_audit_governanc.Domain.Errors.{Result}
use snaplink_audit_governanc.Store.Control.{Control, Change}
use snaplink_audit_governanc.Store.Control.Keeps.{Saves}
use snaplink_audit_governanc.Export.Checkpoint.{Ending}
use snaplink_audit_governanc.Export.Claim.{started}
use snaplink_audit_governanc.Export.Owner.{cancelled_job}
use snaplink_audit_governanc.Export.Recover.{Diagnosis, recovered_job}
use snaplink_audit_governanc.Export.Terminal.{OnWrite, finished_job}

-- Who may end a job, how, with what follow-up and when.
abbrev pub Enders : Type 1
Enders = ExportJob → Ending → OnWrite → ℕ → Type 0

-- One move of a job, where `P` says who may end it. No constructor leaves a status that is neither pending nor running.
pub data Moves (P : Enders) : Option ExportJob → Option ExportJob → Type 0 where
  stays : {o : Option ExportJob} → Moves P o o
  admits : {new : ExportJob} → is_pending new.status ≡ true → Moves P none (some new)
  starts :
      {old : ExportJob} (now : ℕ)
      → is_pending old.status ≡ true
      → Moves P (some old) (some (started old now))
  cancels :
      {old : ExportJob} (now : ℕ)
      → (is_pending old.status || is_running old.status) ≡ true
      → Moves P (some old) (some (cancelled_job old now))
  ends :
      {old : ExportJob} (e : Ending) (on : OnWrite) (now : ℕ)
      → is_running old.status ≡ true
      → P old e on now
      → Moves P (some old) (some (finished_job old e on now))
  fails :
      {old : ExportJob} (d : Diagnosis) (now : ℕ)
      → is_running old.status ≡ true
      → Moves P (some old) (some (recovered_job old d now))

-- The move of each key between two tables.
pub record MovesAll (P : Enders) (before after : Table ExportJob) : Type 0 where
  pub at : (key : String) → Moves P (lookup key before) (lookup key after)

pub MovesAll-refl : {P : Enders} (m : Table ExportJob) → MovesAll P m m
MovesAll-refl m = record { at = λ key. stays }

-- Each key stands once, as in a Go map.
unfoldable pub HasUniqueKeys : Table ExportJob → Type 0
HasUniqueKeys [] = Unit
HasUniqueKeys ((k, job) ∷ m) = (lookup k m ≡ none) × HasUniqueKeys m

HasUniqueKeys-insert :
    (k : String) (job : ExportJob) (m : Table ExportJob)
    → HasUniqueKeys m
    → HasUniqueKeys (insert k job m)
unfolding HasUniqueKeys insert lookup
HasUniqueKeys-insert k job [] u = (refl, tt)
HasUniqueKeys-insert k job ((j, old) ∷ m) u = elim (Bool-cases (j == k)) [
  | inl same ↦
      let apart : lookup k m ≡ none = ground (arith, u.0, eq_iff j k) in rw same (apart, u.1)
  | inr differs ↦
      let apart : lookup j (insert k job m) ≡ none =
        ground (arith, u.0, lookup-insert k j job m, eq_iff j k, eq_iff k j) in
      rw differs (apart, HasUniqueKeys-insert k job m u.1)
]

-- A write moves its own key only.
MovesAll-insert :
    {P : Enders} (k : String) (old : Option ExportJob) (new : ExportJob) (m : Table ExportJob)
    → lookup k m ≡ old
    → Moves P old (some new)
    → MovesAll P m (insert k new m)
MovesAll-insert k old new m found move = record {
  at = λ key. elim (Bool-cases (k == key)) [
    | inl same ↦
        let here : lookup key m ≡ old = ground (arith, found, eq_iff k key) in
        rw (lookup-insert k key new m, same, here) move
    | inr differs ↦ rw (lookup-insert k key new m, differs) stays
  ];
}

-- What an operation makes of the table: every job moves, and each key still stands once.
pub record IsSoundStep (P : Enders) (before after : Table ExportJob) : Type 0 where
  pub moves : MovesAll P before after
  pub unique : HasUniqueKeys after

module _ {P : Enders} (m : Table ExportJob) (u : HasUniqueKeys m) where
  pub IsSoundStep-same : IsSoundStep P m m
  IsSoundStep-same = record { moves = MovesAll-refl m; unique = u }

  pub IsSoundStep-write :
      (k : String) (old : Option ExportJob) (new : ExportJob)
      → lookup k m ≡ old
      → Moves P old (some new)
      → IsSoundStep P m (insert k new m)
  IsSoundStep-write k old new found move = record {
    moves = MovesAll-insert k old new m found move;
    unique = HasUniqueKeys-insert k new m u;
  }

-- A later write of a key that the table first held is a move from there.
pub IsSoundStep-over :
    {P : Enders} (m : Table ExportJob) (k : String) (old new : ExportJob) (acc : Table ExportJob)
    → IsSoundStep P m acc
    → lookup k m ≡ some old
    → Moves P (some old) (some new)
    → IsSoundStep P m (insert k new acc)
IsSoundStep-over m k old new acc w found move = record {
  moves = record {
    at = λ key. elim (Bool-cases (k == key)) [
      | inl same ↦
          let here : lookup key m ≡ some old = ground (arith, found, eq_iff k key) in
          rw (lookup-insert k key new acc, same, here) move
      | inr differs ↦ rw (lookup-insert k key new acc, differs) (w.moves.at key)
    ];
  };
  unique = HasUniqueKeys-insert k new acc w.unique;
}

-- What a closure on `d` saves is a sound step from `d`.
abbrev pub SavesStep {ℓ} : {A : Type ℓ} → Enders → Control → Result (Change A) → Type 0
SavesStep P d r = Saves (λ after. IsSoundStep P d.exports after.exports) r
