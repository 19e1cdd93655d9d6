-- ===== src/Domain/Errors/Yields.antt =====
-- What holds of the value of a result, if it has one.
use snaplink_audit_governanc.Prelude.{
  ◌≡◌, refl, subst, Bool, true, false, Option, none, some, if◌then◌else◌,
}
use snaplink_audit_governanc.Domain.Errors.{Err, Result, ok, err, ◌>>=◌, ◌>>◌}

module _ {ℓ κ} {A : Type ℓ} where
  abbrev pub Yielded : (A → Type κ) → Result A → Type κ
  Yielded P (ok a) = P a
  Yielded P (err e) = Unit

pub record Yields {ℓ κ} {A : Type ℓ} (P : A → Type κ) (r : Result A) : Type κ where
  pub at : Yielded P r

module _ {ℓ κ} {A : Type ℓ} {P : A → Type κ} where
  pub Yields-ok : {a : A} → P a → Yields P (ok a)
  Yields-ok p = record { at = p }

  pub Yields-err : {e : Err} → Yields P (err e)
  Yields-err = record { at = tt }

  pub Yields-if :
      {b : Bool} {x y : Result A}
      → (b ≡ true → Yields P x)
      → (b ≡ false → Yields P y)
      → Yields P (if b then x else y)
  Yields-if {b = true} hx hy = hx refl
  Yields-if {b = false} hx hy = hy refl

  pub Yields-bind {μ ν} :
      {B : Type μ} {Q : B → Type ν} {m : Result B} {f : B → Result A}
      → Yields Q m
      → ((b : B) → Q b → m ≡ ok b → Yields P (f b))
      → Yields P (m >>= f)
  Yields-bind {m = ok b} hm hf = hf b hm.at refl
  Yields-bind {m = err e} hm hf = Yields-err

  pub Yields-after {μ} :
      {B : Type μ} {m : Result B} {f : B → Result A}
      → ((b : B) → m ≡ ok b → Yields P (f b))
      → Yields P (m >>= f)
  Yields-after {m = ok b} hf = hf b refl
  Yields-after {m = err e} hf = Yields-err

  pub Yields-option {μ} :
      {B : Type μ} {o : Option B} {x : Result A} {f : B → Result A}
      → Yields P x
      → ((b : B) → o ≡ some b → Yields P (f b))
      → Yields P (elim o [ none ↦ x | some b ↦ f b ])
  Yields-option {o = none} hx hf = hx
  Yields-option {o = some b} hx hf = hf b refl

  pub Yields-value : {r : Result A} {a : A} → Yields P r → r ≡ ok a → P a
  Yields-value y e = subst (Yielded P) e y.at

-- The same on results that are given in full, for the chains that `do` writes.
module _ {κ} {A : Type 0} {P : A → Type κ} where
  pub Yields-check :
      (c : Result (Unit {0})) (r : Result A) → (c ≡ ok tt → Yields P r) → Yields P (c >> r)
  Yields-check (err e) r h = Yields-err
  Yields-check (ok _) r h = h refl

  pub Yields-branch :
      (b : Bool) (x y : Result A)
      → (b ≡ true → Yields P x)
      → (b ≡ false → Yields P y)
      → Yields P (if b then x else y)
  Yields-branch true x y h k = h refl
  Yields-branch false x y h k = k refl

  pub Yields-then {μ} :
      {B : Type 0} {Q : B → Type μ}
      → (m : Result B) → (f : B → Result A) → Yields Q m
      → ((b : B) → Q b → Yields P (f b))
      → Yields P (m >>= f)
  Yields-then (err e) f h k = Yields-err
  Yields-then (ok b) f h k = k b h.at

-- A result yields what it yields.
pub Yields-self : {A : Type 0} (r : Result A) → Yields (λ a. r ≡ ok a) r
Yields-self (err e) = Yields-err
Yields-self (ok a) = Yields-ok refl
