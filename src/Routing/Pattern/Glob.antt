-- ===== src/Routing/Pattern/Glob.antt =====
-- What a pattern means, independently of the loop: a `*` stands for any text, any other
-- character for itself.
use nextapi.Base.{ℕ, ◌≡◌, ◌≢◌, ◌↔◌, refl, sym, ap, ◌∙◌, List, [], ◌∷◌, ◌++◌, All}
use mathlib.Core.Path.{ap₂}
use mathlib.Core.List.{append_assoc}
use nextapi.Routing.Pattern.{wildcard}

pub data Matches : List ℕ → List ℕ → Type 0 where
  done : Matches [] []
  char : {c d : ℕ} {p t : List ℕ} → c ≢ wildcard → c ≡ d → Matches p t → Matches (c ∷ p) (d ∷ t)
  star :
      {c : ℕ} {p t : List ℕ} (s r : List ℕ)
      → c ≡ wildcard
      → t ≡ s ++ r
      → Matches p r
      → Matches (c ∷ p) t

-- What a `*` in front leaves to be matched.
pub star_inv :
    {c : ℕ} {p t : List ℕ}
    → c ≡ wildcard
    → Matches (c ∷ p) t
    → (s : List ℕ) × (r : List ℕ) × (t ≡ s ++ r) × Matches p r
star_inv w (char n e m) = absurd (n w)
star_inv w (star s r _ e m) = (s, r, e, m)

pub char_inv :
    {c d : ℕ} {p t : List ℕ} → c ≢ wildcard → Matches (c ∷ p) (d ∷ t) → (c ≡ d) × Matches p t
char_inv n (char _ e m) = (e, m)
char_inv n (star s r w e m) = absurd (n w)

pub char_nil : {c : ℕ} {p : List ℕ} → c ≢ wildcard → ¬ Matches (c ∷ p) []
char_nil n (star s r w e m) = n w

-- A `*` may take more text in front.
pub star_append :
    {c : ℕ} {p t : List ℕ} (z : List ℕ)
    → c ≡ wildcard
    → Matches (c ∷ p) t
    → Matches (c ∷ p) (z ++ t)
star_append z w m =
    let (s, r, e, k) = star_inv w m in
    star (z ++ s) r w (ap (λ x. z ++ x) e ∙ sym (append_assoc z s r)) k

-- Plain characters in front are matched by themselves.
pub strip :
    (lit : List ℕ) {p t : List ℕ}
    → All (λ c. c ≢ wildcard) lit
    → Matches (lit ++ p) t
    → (r : List ℕ) × (t ≡ lit ++ r) × Matches p r
strip [] {t} h m = (t, refl, m)
strip (c ∷ lit) {t = []} h m = absurd (char_nil h.0 m)
strip (c ∷ lit) {t = d ∷ t} h m =
    let (e, k) = char_inv h.0 m in let (r, e', k') = strip lit h.1 k in (r, ap₂ ◌∷◌ (sym e) e', k')

pub nil_inv : {c : ℕ} {t : List ℕ} → ¬ Matches [] (c ∷ t)
nil_inv m = elim m [ ]

pub char_match_iff :
    (c d : ℕ) (p t : List ℕ) → c ≢ wildcard → c ≡ d → Matches (c ∷ p) (d ∷ t) ↔ Matches p t
char_match_iff c d p t n e = (λ m. (char_inv n m).1, λ m. char n e m)
