-- ===== src/Base/Json/Laws.antt =====
-- What is found in an object after an insertion, and what an array holds.
use Prim.Native.String.{String}
use text.Mathlib.Text.{◌==◌}
use text.Mathlib.TextEquality.{eq_iff}
use mathlib.Core.Path.{◌≡◌, refl, sym, ap, subst, ◌∙◌}
use mathlib.Core.Bool.{Bool, true, false, ◌&&◌, not}
use mathlib.Core.Logic.{inl, inr}
use mathlib.Core.List.{List, [], ◌∷◌}
use mathlib.Core.Option.{Option, none, some}
use native.Mathlib.Omega.{arith}
use nextapi.Base.Tests.{if◌then◌else◌, Bool-cases}
use nextapi.Base.Json.{
  Value, Fields, no_fields, field, get_field, put_field, put_some, put_all, keep_fields, items,
  to_items,
}

-- What is there after an insertion: the new value, or the old one.
abbrev pub or_else {ℓ} : {A : Type ℓ} → Option A → Option A → Option A
or_else o none = o
or_else none (some d) = some d
or_else (some v) (some d) = some v

or_else-none {ℓ} : {A : Type ℓ} (d : Option A) → or_else none d ≡ d
or_else-none none = refl
or_else-none (some d) = refl

or_else-some {ℓ} : {A : Type ℓ} (v : A) (d : Option A) → or_else (some v) d ≡ some v
or_else-some v none = refl
or_else-some v (some d) = refl

pub get-put_field :
    (k j : String) (v : Value) (fs : Fields)
    → get_field k (put_field j v fs) ≡ (if j == k then some v else get_field k fs)
unfolding get_field put_field
get-put_field k j v no_fields = refl
get-put_field k j v (field i w r) =
    ground (arith, eq_iff j k, eq_iff i j, eq_iff i k, get-put_field k j v r)

pub get-put_some :
    (k j : String) (o : Option Value) (fs : Fields)
    → get_field k (put_some j o fs)
      ≡ (if j == k then or_else o (get_field k fs) else get_field k fs)
get-put_some k j none fs =
    rw (or_else-none (get_field k fs))
      (elim (Bool-cases (j == k)) [ inl e ↦ rw e refl | inr e ↦ rw e refl ])
get-put_some k j (some v) fs = rw (or_else-some v (get_field k fs)) (get-put_field k j v fs)

-- What a key holds after a sequence of insertions.
abbrev pub after_puts : String → List (String × Option Value) → Option Value → Option Value
after_puts k [] d = d
after_puts k ((j, o) ∷ l) d = after_puts k l (if j == k then or_else o d else d)

pub get-put_all :
    (k : String) (l : List (String × Option Value)) (fs : Fields)
    → get_field k (put_all l fs) ≡ after_puts k l (get_field k fs)
unfolding put_all
get-put_all k [] fs = refl
get-put_all k ((j, o) ∷ l) fs = rw (sym (get-put_some k j o fs)) (get-put_all k l (put_some j o fs))

keep-put_field :
    (p : String → Bool) (j : String) (v : Value) (fs : Fields)
    → p j ≡ false
    → keep_fields p (put_field j v fs) ≡ keep_fields p fs
unfolding keep_fields put_field
keep-put_field p j v no_fields h = rw h refl
keep-put_field p j v (field i w r) h = elim (Bool-cases (i == j)) [
  | inl e ↦
      let q : p i ≡ false =
        subst (λ x. p x ≡ false) ((eq_iff j i).0 (ground (arith, e, eq_iff i j, eq_iff j i))) h in
      rw (e, h) (rw q refl)
  | inr e ↦ ground (arith, e, keep-put_field p j v r h)
]

pub keep-put_some :
    (p : String → Bool) (j : String) (o : Option Value) (fs : Fields)
    → p j ≡ false
    → keep_fields p (put_some j o fs) ≡ keep_fields p fs
keep-put_some p j none fs h = refl
keep-put_some p j (some v) fs h = keep-put_field p j v fs h

-- No key of a sequence of insertions passes.
abbrev pub none_passes : (String → Bool) → List (String × Option Value) → Bool
none_passes p [] = true
none_passes p ((j, o) ∷ l) = not (p j) && none_passes p l

pub keep-put_all :
    (p : String → Bool) (l : List (String × Option Value)) (fs : Fields)
    → none_passes p l ≡ true
    → keep_fields p (put_all l fs) ≡ keep_fields p fs
unfolding put_all
keep-put_all p [] fs h = refl
keep-put_all p ((j, o) ∷ l) fs h =
    rw (sym (keep-put_some p j o fs (ground (arith, h))))
      (keep-put_all p l (put_some j o fs) (ground (arith, h)))

-- Every key of the object passes the test.
unfoldable pub only : (String → Bool) → Fields → Bool
only p no_fields = true
only p (field k v r) = p k && only p r

pub keep-only : (p : String → Bool) (fs : Fields) → only p fs ≡ true → keep_fields p fs ≡ fs
unfolding only keep_fields
keep-only p no_fields h = refl
keep-only p (field k v r) h = ground (arith, keep-only p r)

pub get-only :
    (p : String → Bool) (k : String) (fs : Fields)
    → only p fs ≡ true
    → p k ≡ false
    → get_field k fs ≡ none
unfolding only get_field
get-only p k no_fields h q = refl
get-only p k (field j v r) h q = elim (Bool-cases (j == k)) [
  | inl e ↦ absurd (
      let s : p j ≡ false =
        subst (λ x. p x ≡ false)
          (ap (λ x. x) ((eq_iff k j).0 (ground (arith, e, eq_iff j k, eq_iff k j)))) q in
      ground (arith, s, h))
  | inr e ↦ rw e (get-only p k r (ground (arith, h)) q)
]

pub items-to_items : (vs : List Value) → items (to_items vs) ≡ vs
items-to_items [] = refl
items-to_items (v ∷ vs) = ap (λ xs. v ∷ xs) (items-to_items vs)

-- What is left at a key when only some keys are kept.
pub get-keep_fields :
    (p : String → Bool) (k : String) (fs : Fields)
    → get_field k (keep_fields p fs) ≡ (if p k then get_field k fs else none)
unfolding keep_fields get_field
get-keep_fields p k no_fields = elim (Bool-cases (p k)) [ inl e ↦ rw e refl | inr e ↦ rw e refl ]
get-keep_fields p k (field j v r) = elim (Bool-cases (j == k)) [
  | inl e ↦
      let q : p j ≡ p k = ap p ((eq_iff j k).0 e) in
      rw q (elim (Bool-cases (p k)) [
        | inl t ↦ rw (t, e) refl
        | inr f ↦ rw f (get-keep_fields p k r ∙ rw f refl)
      ])
  | inr e ↦ elim (Bool-cases (p j)) [
    | inl t ↦ rw (t, e) (get-keep_fields p k r)
    | inr f ↦ rw (f, e) (get-keep_fields p k r)
  ]
]
