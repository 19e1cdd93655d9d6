-- ===== src/Store/Cas/Atomic.antt =====
-- What an instance may conclude from the result of `updateChecked`.
use snaplink_audit_governanc.Prelude.{
  ℕ, zero, suc, ◌≤◌, ◌<◌, ◌≡◌, refl, ap, sym, subst, Bool, true, false, List, [], ◌∷◌, length,
  arith,
}
use snaplink_audit_governanc.Domain.Errors.{Err, Result, ok, err, snapshot_conflict}
use snaplink_audit_governanc.Store.Cas.{
  Backend, Fault, fault_err, Turn, quiet, other_commit, save_fails, lost_reply, commit, disturb,
  save, Round, returned, conflicted, after_closure, head_turn, tail_turns, attempt, settle,
  continue_with, update_loop,
}

module _ {ℓ} {S : Type ℓ} where
  -- One commit of another instance in each round.
  abbrev pub commits : List S → List (Turn S)
  commits [] = []
  commits (s ∷ others) = other_commit s ∷ commits others

module _ {ℓ} {S : Type ℓ} where
  -- What the other instances alone make of the backend in the first rounds.
  abbrev pub others_after : ℕ → List (Turn S) → Backend S → Backend S
  others_after zero turns b = b
  others_after (suc rounds) turns b =
      others_after rounds (tail_turns turns) (disturb (head_turn turns) b)

-- The ways in which a call can end. `rounds` counts the rounds whose turns of other instances the
-- backend has seen, each commit of theirs exactly once and in order.
pub data Outcome {ℓ κ} {S : Type ℓ} {A : Type κ} (closure : S → Result (S × Bool × A))
    (turns : List (Turn S)) (b b' : Backend S) (r : Result A) : Type (ℓ ⊔ κ) where
  -- the closure's change was applied to the very snapshot that it replaces
  committed :
      (rounds : ℕ) (after : S) (value : A)
      → closure (others_after rounds turns b).snapshot ≡ ok (after, true, value)
      → b' ≡ commit after (others_after rounds turns b)
      → r ≡ ok value
      → Outcome closure turns b b' r
  -- the closure reported no change: nothing of its own was written
  unchanged :
      (rounds : ℕ) (after : S) (value : A)
      → closure (others_after rounds turns b).snapshot ≡ ok (after, false, value)
      → b' ≡ others_after (suc rounds) turns b
      → r ≡ ok value
      → Outcome closure turns b b' r
  -- an error, and nothing of its own was written
  refused :
      (rounds : ℕ) (e : Err)
      → b' ≡ others_after rounds turns b
      → r ≡ err e
      → Outcome closure turns b b' r
  -- an error that is no conflict, and the change was written all the same, once
  unknown :
      (rounds : ℕ) (after : S) (value : A) (f : Fault)
      → closure (others_after rounds turns b).snapshot ≡ ok (after, true, value)
      → b' ≡ commit after (others_after rounds turns b)
      → r ≡ err (fault_err f)
      → Outcome closure turns b b' r

data RoundOutcome {ℓ κ} {S : Type ℓ} {A : Type κ} (closure : S → Result (S × Bool × A))
    (turns : List (Turn S)) (b : Backend S) : Round S A → Type (ℓ ⊔ κ) where
  ends :
      {b' : Backend S} {r : Result A}
      → Outcome closure turns b b' r
      → RoundOutcome closure turns b (returned b' r)
  again :
      {b' : Backend S}
      → b' ≡ disturb (head_turn turns) b
      → RoundOutcome closure turns b (conflicted b')

module _ {ℓ} {S : Type ℓ} (s : S) (b : Backend S) where
  save-quiet : save b.version s quiet b ≡ (commit s b, ok tt)
  unfolding save
  save-quiet = ground arith

  save-save_fails : (f : Fault) → save b.version s (save_fails f) b ≡ (b, err (fault_err f))
  unfolding save
  save-save_fails f = refl

  save-lost_reply :
      (f : Fault) → save b.version s (lost_reply f) b ≡ (commit s b, err (fault_err f))
  unfolding save
  save-lost_reply f = ground arith

  save-other_commit :
      (t : S) → save b.version s (other_commit t) (commit t b) ≡ (commit t b, err snapshot_conflict)
  unfolding save
  save-other_commit t = ground arith

module _ {ℓ κ} {S : Type ℓ} {A : Type κ} (closure : S → Result (S × Bool × A)) where
  after_closure-RoundOutcome :
      (turns : List (Turn S)) (turn : Turn S) (b : Backend S) (x : Result (S × Bool × A))
      → head_turn turns ≡ turn
      → closure b.snapshot ≡ x
      → RoundOutcome closure turns b (after_closure turn b x)
  after_closure-RoundOutcome turns turn b (err e) now h =
      ends (refused 1 e (ap (λ t. disturb t b) (sym now)) refl)
  after_closure-RoundOutcome turns turn b (ok (after, false, value)) now h =
      ends (unchanged 0 after value h (ap (λ t. disturb t b) (sym now)) refl)
  after_closure-RoundOutcome turns quiet b (ok (after, true, value)) now h =
      rw (save-quiet after b) (ends (committed 0 after value h refl refl))
  after_closure-RoundOutcome turns (other_commit s) b (ok (after, true, value)) now h =
      rw (save-other_commit after b s) (again (ap (λ t. disturb t b) (sym now)))
  after_closure-RoundOutcome turns (save_fails Fault.deadline_passed) b (ok (after, true, value))
        now h =
      rw (save-save_fails after b Fault.deadline_passed) (ends (refused 0 _ refl refl))
  after_closure-RoundOutcome turns (save_fails Fault.connection_lost) b (ok (after, true, value))
        now h =
      rw (save-save_fails after b Fault.connection_lost) (ends (refused 0 _ refl refl))
  after_closure-RoundOutcome turns (lost_reply Fault.deadline_passed) b (ok (after, true, value))
        now h =
      rw (save-lost_reply after b Fault.deadline_passed)
        (ends (unknown 0 after value Fault.deadline_passed h refl refl))
  after_closure-RoundOutcome turns (lost_reply Fault.connection_lost) b (ok (after, true, value))
        now h =
      rw (save-lost_reply after b Fault.connection_lost)
        (ends (unknown 0 after value Fault.connection_lost h refl refl))

  attempt-RoundOutcome :
      (turns : List (Turn S)) (b : Backend S)
      → RoundOutcome closure turns b (attempt closure (head_turn turns) b)
  unfolding attempt
  attempt-RoundOutcome turns b =
      after_closure-RoundOutcome turns (head_turn turns) b (closure b.snapshot) refl refl

  -- A later call, behind one round of the others.
  Outcome-after :
      {turns : List (Turn S)} {b b' : Backend S} {r : Result A}
      → Outcome closure (tail_turns turns) (disturb (head_turn turns) b) b' r
      → Outcome closure turns b b' r
  Outcome-after (committed n v x h e k) = committed (suc n) v x h e k
  Outcome-after (unchanged n v x h e k) = unchanged (suc n) v x h e k
  Outcome-after (refused n e h k) = refused (suc n) e h k
  Outcome-after (unknown n v x f h e k) = unknown (suc n) v x f h e k

  last_round :
      {turns : List (Turn S)} {b : Backend S} (x : Round S A)
      → RoundOutcome closure turns b x
      → let (b', r) = settle x in Outcome closure turns b b' r
  last_round (returned b' r) (ends h) = h
  last_round (conflicted b') (again e) = refused 1 snapshot_conflict e refl

  next_round :
      {turns : List (Turn S)} {b : Backend S} (go_on : Backend S → Backend S × Result A)
      (x : Round S A)
      → ((c : Backend S) → let (b', r) = go_on c in Outcome closure (tail_turns turns) c b' r)
      → RoundOutcome closure turns b x
      → let (b', r) = continue_with go_on x in Outcome closure turns b b' r
  next_round go_on (returned b' r) later (ends h) = h
  next_round {turns = turns} {b = b} go_on (conflicted b') later (again e) =
      Outcome-after
        (subst (λ c. Outcome closure (tail_turns turns) c (go_on b').0 (go_on b').1) e (later b'))

  -- Whatever the other instances and the connection do, a call of `updateChecked` that succeeds with a
  -- change has applied its closure to the snapshot that the write replaced, and what it replaced is
  -- exactly what the other instances' commits of the rounds so far make of the initial row, each of
  -- them once and in order; a call that succeeds without a change, or fails with a conflict, has
  -- written nothing; and every other failure has written the change at most once.
  pub update_loop-Outcome :
      (left : ℕ) (turns : List (Turn S)) (b : Backend S)
      → let (b', r) = update_loop closure left turns b in Outcome closure turns b b' r
  unfolding update_loop
  update_loop-Outcome zero turns b =
      last_round (attempt closure (head_turn turns) b) (attempt-RoundOutcome turns b)
  update_loop-Outcome (suc left) turns b =
      next_round (update_loop closure left (tail_turns turns)) (attempt closure (head_turn turns) b)
        (update_loop-Outcome left (tail_turns turns)) (attempt-RoundOutcome turns b)

module _ {ℓ κ} {S : Type ℓ} {A : Type κ} (closure : S → Result (S × Bool × A)) where
  -- The closure has something to write at every snapshot.
  abbrev pub Writes : Type (ℓ ⊔ κ)
  Writes = (s : S) → (after : S) × (value : A) × (closure s ≡ ok (after, true, value))

  quiet_attempt :
      (w : Writes) (b : Backend S)
      → attempt closure quiet b ≡ returned (commit (w b.snapshot).0 b) (ok (w b.snapshot).1)
  unfolding attempt
  quiet_attempt w b = rw (w b.snapshot).2 (rw (save-quiet (w b.snapshot).0 b))

  lost_attempt :
      (w : Writes) (b : Backend S) (s : S)
      → attempt closure (other_commit s) b ≡ conflicted (commit s b)
  unfolding attempt
  lost_attempt w b s = rw (w b.snapshot).2 (rw (save-other_commit (w b.snapshot).0 b s))

  converges_or_exhausts :
      (w : Writes) (left : ℕ) (others : List S) (b : Backend S)
      → (length others ≤ left → (v : A) × ((update_loop closure left (commits others) b).1 ≡ ok v))
        × (left < length others
            → (update_loop closure left (commits others) b).1 ≡ err snapshot_conflict)
  unfolding update_loop
  converges_or_exhausts w zero [] b =
      (λ _. ((w b.snapshot).1, rw (quiet_attempt w b)), λ h. absurd (omega arith))
  converges_or_exhausts w (suc left) [] b =
      (λ _. ((w b.snapshot).1, rw (quiet_attempt w b)), λ h. absurd (omega arith))
  converges_or_exhausts w zero (s ∷ others) b =
      (λ h. absurd (omega arith), λ _. rw (lost_attempt w b s))
  converges_or_exhausts w (suc left) (s ∷ others) b =
      let (meets, exceeds) = converges_or_exhausts w left others (commit s b) in
      (
        λ h. rw (lost_attempt w b s) (meets (omega arith)),
        λ h. rw (lost_attempt w b s) (exceeds (omega arith)),
      )

  -- A writer whose closure always writes, and that meets one commit of another instance in each of
  -- its first rounds, succeeds if those are no more than its retries.
  pub update_loop_converges :
      (w : Writes) (left : ℕ) (others : List S) (b : Backend S)
      → length others ≤ left
      → (v : A) × ((update_loop closure left (commits others) b).1 ≡ ok v)
  update_loop_converges w left others b h = (converges_or_exhausts w left others b).0 h

  -- Where a writer whose closure always writes meets more such commits than its retries, it
  -- reports the conflict.
  pub update_loop_exhausts :
      (w : Writes) (left : ℕ) (others : List S) (b : Backend S)
      → left < length others
      → (update_loop closure left (commits others) b).1 ≡ err snapshot_conflict
  update_loop_exhausts w left others b h = (converges_or_exhausts w left others b).1 h
