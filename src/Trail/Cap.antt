-- ===== src/Trail/Cap.antt =====
-- Sequences of appendAdminAction under its cap.
use snaplink_audit_governanc.Prelude.{
  ℕ, suc, zero, ◌+◌, ◌-◌, ◌≤◌, ◌<◌, ◌≡◌, refl, sym, ap, ◌∙◌, List, [], ◌∷◌, ◌++◌, arith, ltb,
  Bool-cases, inl, inr, length, drop, length-append, length-drop,
}
use snaplink_audit_governanc.Domain.Models.{AdminAction}
use snaplink_audit_governanc.Store.Control.{append_capped}

-- The facts appended one after another, the first of the list first.
pub append_all : ℕ → List AdminAction → List AdminAction → List AdminAction
append_all cap actions [] = actions
append_all cap actions (a ∷ more) = append_all cap (append_capped cap actions a) more

drop-append :
    {A : Type 0} (n : ℕ) (xs ys : List A) → n ≤ length xs → drop n (xs ++ ys) ≡ drop n xs ++ ys
drop-append zero xs ys h = refl
drop-append (suc n) [] ys h = ground (arith, h)
drop-append (suc n) (x ∷ xs) ys h = drop-append n xs ys (ground (arith, h))

drop-nil : {A : Type 0} (n : ℕ) → drop {A = A} n [] ≡ []
drop-nil zero = refl
drop-nil (suc n) = refl

drop-drop : {A : Type 0} (j k n : ℕ) (xs : List A) → n ≡ k + j → drop j (drop k xs) ≡ drop n xs
drop-drop j zero n xs e = ap (λ i. drop i xs) (ground (arith, e))
drop-drop j (suc k) n [] e = rw (drop-nil j, drop-nil n) refl
drop-drop j (suc k) zero (x ∷ xs) e = ground (arith, e)
drop-drop j (suc k) (suc n) (x ∷ xs) e = drop-drop j k n xs (omega (arith, e))

append-nil : {A : Type 0} (xs : List A) → xs ++ [] ≡ xs
append-nil [] = refl
append-nil (x ∷ xs) = ap (λ l. x ∷ l) (append-nil xs)

append_assoc :
    {A : Type 0} (xs : List A) (a : A) (ys : List A) → (xs ++ a ∷ []) ++ ys ≡ xs ++ a ∷ ys
append_assoc [] a ys = refl
append_assoc (x ∷ xs) a ys = ap (λ l. x ∷ l) (append_assoc xs a ys)

append_capped-drop :
    (cap : ℕ) (actions : List AdminAction) (a : AdminAction)
    → 0 < cap
    → append_capped cap actions a ≡ drop (length (actions ++ a ∷ []) - cap) (actions ++ a ∷ [])
unfolding append_capped
append_capped-drop cap actions a h = elim (Bool-cases (ltb cap (length (actions ++ a ∷ [])))) [
  | inl over ↦ ground (arith, h, over)
  | inr within ↦
      let none_over : length (actions ++ a ∷ []) - cap ≡ 0 = ground (arith, within) in
      rw none_over (ground (arith, h, within))
]

rest_of :
    (cap k : ℕ) (all : List AdminAction)
    → length all - cap ≡ k + (length all - k - cap)
    → drop (length (drop k all) - cap) (drop k all) ≡ drop (length all - cap) all
rest_of cap k all e =
    rw (length-drop k all) (drop-drop (length all - k - cap) k (length all - cap) all e)

-- Under a positive cap, the trail that facts were appended to one after another is the newest `cap`
-- of all of them, in their order: what the trail held followed by the facts, less the oldest.
pub append_all-drop :
    (cap : ℕ) (actions more : List AdminAction)
    → 0 < cap
    → length actions ≤ cap
    → append_all cap actions more ≡ drop (length (actions ++ more) - cap) (actions ++ more)
unfolding append_all
append_all-drop cap actions [] h fits =
    let none_over : length actions - cap ≡ 0 = omega (arith, fits) in
    rw (append-nil actions, none_over) refl
append_all-drop cap actions (a ∷ more) h fits =
    let told = actions ++ a ∷ [] in
    let k = length told - cap in
    let all = actions ++ a ∷ more in
    let kept = append_capped cap actions a in
    let sizes : (length told ≡ length actions + 1) × (length all ≡ length told + length more) = (
      length-append actions (a ∷ []),
      omega (arith, length-append actions (a ∷ more), length-append actions (a ∷ [])),
    ) in
    let here : kept ≡ drop k told = append_capped-drop cap actions a h in
    let room : length kept ≤ cap = rw here (omega (arith, length-drop k told, sizes.0, fits, h)) in
    let joined : kept ++ more ≡ drop k all =
      rw here
        (sym (drop-append k told more (omega arith)) ∙ ap (drop k) (append_assoc actions a more)) in
    let short : length (kept ++ more) ≡ length all - k = rw joined (length-drop k all) in
    append_all-drop cap kept more h room
    ∙ (rw joined (rest_of cap k all (omega (arith, sizes.0, sizes.1, fits, h))))
