-- ===== src/Ledger/Keys.antt =====
-- The framed keys of internal/store/store.go on whole texts are those of Domain.Identifiers on lists
-- of code points, so that accepted tenants keep them apart.
use Prim.Native.String.append
use text.Mathlib.TextEquality.{Char-path}
use snaplink_audit_governanc.Prelude.{◌≡◌, refl, sym, ap, ◌∙◌, String, ◌++◌, ◌+++◌}
use snaplink_audit_governanc.Prelude.Texts.{codes}
use snaplink_audit_governanc.Domain.Errors.{ok}
use snaplink_audit_governanc.Domain.Identifiers.{event_key, valid_key_component}
use snaplink_audit_governanc.Domain.Identifiers.Framing.{event_key-injective}
use snaplink_audit_governanc.Ledger.Models.{framed_key, separator}

pub codes-append : (s t : String) → codes (s +++ t) ≡ codes s ++ codes t
codes-append String.[] t = rw append.nil refl
codes-append (String.◌∷◌ c s) t = rw (append.cons, codes-append s t) refl

pub codes-injective : (s t : String) → codes s ≡ codes t → s ≡ t
codes-injective String.[] String.[] h = refl
codes-injective String.[] (String.◌∷◌ d t) h = absurd (cc)
codes-injective (String.◌∷◌ c s) String.[] h = absurd (cc)
codes-injective (String.◌∷◌ c s) (String.◌∷◌ d t) h =
    let same = Char-path c d cc in
    let rest = codes-injective s t cc in λ i. String.◌∷◌ (same i) (rest i)

codes-framed_key : (t s : String) → codes (framed_key t s) ≡ event_key (codes t) (codes s)
unfolding framed_key event_key
codes-framed_key t s = rw (codes-append t (separator +++ s), codes-append separator s) refl

pub framed_key-injective :
    (t s t' s' : String)
    → valid_key_component (codes t) ≡ ok tt
    → valid_key_component (codes t') ≡ ok tt
    → framed_key t s ≡ framed_key t' s'
    → (t ≡ t') × (s ≡ s')
framed_key-injective t s t' s' h h' e =
    let (p, q) =
      event_key-injective (codes t) (codes s) (codes t') (codes s') h h'
        (sym (codes-framed_key t s) ∙ ap codes e ∙ codes-framed_key t' s') in
    (codes-injective t t' p, codes-injective s s' q)
