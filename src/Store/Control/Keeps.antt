-- ===== src/Store/Control/Keeps.antt =====
-- Invariants of control data: one rule for each way in which a closure ends.
use snaplink_audit_governanc.Prelude.{
  ◌≡◌, refl, Bool, true, false, Option, none, some, Bool-cases, inl, inr, if◌then◌else◌,
}
use snaplink_audit_governanc.Domain.Errors.{Err, Result, ok, err, ◌>>=◌}
use snaplink_audit_governanc.Store.Control.{Control, Change, save, skip, persist}

-- What a closure persists, if it persists anything, satisfies `P`.
module _ {ℓ κ} {A : Type ℓ} where
  abbrev pub Persisted : (Control → Type κ) → Result (Change A) → Type κ
  Persisted P (err e) = Unit
  Persisted P (ok c) = c.changed ≡ true → P c.after

pub record Saves {ℓ κ} {A : Type ℓ} (P : Control → Type κ) (r : Result (Change A)) : Type κ where
  pub at : Persisted P r

module _ {ℓ κ} {A : Type ℓ} {P : Control → Type κ} where
  pub Saves-err : {e : Err} → Saves {A = A} P (err e)
  Saves-err = record { at = tt }

  pub Saves-skip : {d : Control} {v : A} → Saves P (skip d v)
  Saves-skip = record { at = λ h. cc }

  pub Saves-save : {d : Control} {v : A} → P d → Saves P (save d v)
  Saves-save p = record { at = λ h. p }

  pub Saves-if :
      {b : Bool} {x y : Result (Change A)}
      → (b ≡ true → Saves P x)
      → (b ≡ false → Saves P y)
      → Saves P (if b then x else y)
  Saves-if {b = true} hx hy = hx refl
  Saves-if {b = false} hx hy = hy refl

  -- a guard that ends the closure in an error
  pub Saves-refuse :
      {b : Bool} (e : Err) {y : Result (Change A)}
      → (b ≡ false → Saves P y)
      → Saves P (if b then err e else y)
  Saves-refuse e h = Saves-if (λ _. Saves-err) h

  pub Saves-bind {μ} :
      {B : Type μ} {m : Result B} {f : B → Result (Change A)}
      → ((b : B) → m ≡ ok b → Saves P (f b))
      → Saves P (m >>= f)
  Saves-bind {m = ok b} h = h b refl
  Saves-bind {m = err e} h = Saves-err

  pub Saves-option {μ} :
      {B : Type μ} {o : Option B} {x : Result (Change A)} {f : B → Result (Change A)}
      → Saves P x
      → ((b : B) → o ≡ some b → Saves P (f b))
      → Saves P (elim o [ none ↦ x | some b ↦ f b ])
  Saves-option {o = none} hx hf = hx
  Saves-option {o = some b} hx hf = hf b refl

  -- An invariant is kept by a method whose closure saves only data that satisfy it.
  pub persist-keeps : (d : Control) {r : Result (Change A)} → P d → Saves P r → P (persist d r).0
  persist-keeps d {r = err e} p h = p
  persist-keeps d {r = ok c} p h = elim (Bool-cases c.changed) [
    | inl saved ↦ rw saved (h.at saved)
    | inr skipped ↦ rw skipped p
  ]

pub ruleset saves_rules =
    (Saves-err, Saves-skip, Saves-save, Saves-if, Saves-refuse, Saves-bind, Saves-option)
