-- ===== src/Routing/Pattern/Split.antt =====
-- Two ways to cut one list: the shorter rest is an end of the longer one.
use nextapi.Base.{◌≤◌, ◌≡◌, sym, ap, ◌∙◌, List, [], ◌∷◌, ◌++◌, arith, length, length-append}
use mathlib.Core.List.{tail, append_assoc}

pub suffix_of_shorter {ℓ} :
    {A : Type ℓ} (x a y b : List A)
    → x ++ a ≡ y ++ b
    → length b ≤ length a
    → (z : List A) × (a ≡ z ++ b)
suffix_of_shorter [] a y b e h = (y, e)
suffix_of_shorter (c ∷ x) a [] b e h = absurd (omega (arith, ap length e, length-append {ℓ} x a))
suffix_of_shorter (c ∷ x) a (d ∷ y) b e h = suffix_of_shorter x a y b (ap tail e) h

-- What stands behind a proper part `z` of `c ∷ w`, as an end of the rest that follows `lit`.
pub suffix_after {ℓ} :
    {A : Type ℓ} (lit t : List A) (c : A) (w s r : List A)
    → lit ++ t ≡ c ∷ w
    → w ≡ s ++ (lit ++ r)
    → (z : List A) × (t ≡ z ++ r)
suffix_after lit t c w s r e h =
    suffix_of_shorter lit t ((c ∷ s) ++ lit) r (e ∙ ap (◌∷◌ c) h ∙ sym (append_assoc (c ∷ s) lit r))
      (omega (
        arith,
        ap length e,
        ap length h,
        length-append {ℓ} lit t,
        length-append {ℓ} s (lit ++ r),
        length-append {ℓ} lit r,
      ))

-- Nothing is left of `lit` behind its own first element.
pub no_room {ℓ} :
    {A : Type ℓ} (lit : List A) (c : A) (w s r : List A) → lit ≡ c ∷ w → w ≡ s ++ (lit ++ r) → ⊥
no_room lit c w s r e h =
    omega (arith, ap length e, ap length h, length-append {ℓ} s (lit ++ r), length-append {ℓ} lit r)
