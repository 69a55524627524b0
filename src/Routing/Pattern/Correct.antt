-- ===== src/Routing/Pattern/Correct.antt =====
-- The loop decides `Matches`, and its fuel is enough.
use nextapi.Base.{
  ℕ, zero, suc, ◌+◌, ◌*◌, ◌≤◌, ◌<◌, ◌≡◌, ◌≢◌, ◌↔◌, ◌⊎◌, inl, inr, refl, sym, ap, ◌∙◌, String, Bool,
  true, false, Option, none, some, List, [], ◌∷◌, ◌++◌, codes, ◌==◌, ℕ_eq, eqb_iff, length,
  length-append, drop, All, arith, Bool-cases,
}
use mathlib.Core.Path.{subst}
use mathlib.Core.List.{tail, append-nil, append_assoc}
use nextapi.Routing.Pattern.{wildcard, Star, skip_stars, is_empty, scan, rounds, pattern_matches}
use nextapi.Routing.Pattern.Glob.{
  Matches, done, star, star_inv, char_inv, char_nil, star_append, strip, nil_inv, char_match_iff,
}
use nextapi.Routing.Pattern.Split.{suffix_after, no_room}

-- The stars at the end match the empty text, and nothing else does.
skip_stars-Matches : (p : List ℕ) → (is_empty (skip_stars p) ≡ true) ↔ Matches p []
unfolding skip_stars
skip_stars-Matches [] = (λ _. done, λ _. refl)
skip_stars-Matches (q ∷ p) = elim (Bool-cases (q == wildcard)) [
  | inl w ↦
      rw (w, skip_stars)
        (
          λ h. star [] [] ((eqb_iff q wildcard).0 w) refl ((skip_stars-Matches p).0 h),
          λ m. (skip_stars-Matches p).1 (empty_rest p (star_inv ((eqb_iff q wildcard).0 w) m)),
        )
  | inr n ↦
      rw (n, skip_stars) (λ h. cc, λ m. absurd (char_nil (λ e. cc (n, (eqb_iff q wildcard).1 e)) m))
]
  where
    empty_rest :
        (p : List ℕ) → (s : List ℕ) × (r : List ℕ) × ([] ≡ s ++ r) × Matches p r → Matches p []
    empty_rest p ([], r, e, m) = subst (Matches p) (sym e) m
    empty_rest p (c ∷ s, r, e, m) = cc

-- The last `*` is followed by plain characters, which have matched so far.
record Anchored (m n : ℕ) (p t sp st : List ℕ) : Type 0 where
  lit : List ℕ
  plain : All (λ c. c ≢ wildcard) lit
  pattern_cut : sp ≡ lit ++ p
  text_cut : st ≡ lit ++ t
  short_pattern : length sp ≤ m
  short_text : length st ≤ n

abbrev Anchor : ℕ → ℕ → List ℕ → List ℕ → Star → Type 0
Anchor m n p t none = (length p ≤ m) × (length t ≤ n)
Anchor m n p t (some (sp, st)) = Anchored m n p t sp st

-- A match that gives the last `*` one character more.
abbrev Later : Star → Type 0
Later none = ⊥
Later (some (sp, [])) = ⊥
Later (some (sp, c ∷ st)) = Matches (wildcard ∷ sp) st

abbrev room : ℕ → Star → ℕ
room n none = suc n
room n (some (sp, st)) = length st

abbrev Decides : Option Bool → Type 0 → Type 0
Decides r P = (b : Bool) × (r ≡ some b) × ((b ≡ true) ↔ P)

Decides-iff : {P Q : Type 0} (r : Option Bool) → (P → Q) → (Q → P) → Decides r P → Decides r Q
Decides-iff r f g (b, e, i) = (b, e, (λ h. f (i.0 h), λ q. i.1 (g q)))

-- Behind a `*`, the rest of the pattern matches at once, or after one character more.
or_Later : (p t : List ℕ) → Matches p t ⊎ Later (some (p, t)) → Matches (wildcard ∷ p) t
or_Later p t (inl k) = star [] t refl refl k
or_Later p [] (inr l) = absurd l
or_Later p (c ∷ t) (inr l) = star_append (c ∷ []) refl l

at_once_or_Later : (p t : List ℕ) → Matches (wildcard ∷ p) t → Matches p t ⊎ Later (some (p, t))
at_once_or_Later p t m = go t (star_inv refl m)
  where
    go :
        (t : List ℕ)
        → (s : List ℕ) × (r : List ℕ) × (t ≡ s ++ r) × Matches p r
        → Matches p t ⊎ Later (some (p, t))
    go t ([], r, e, k) = inl (subst (Matches p) (sym e) k)
    go [] (c ∷ s, r, e, k) = cc
    go (d ∷ t) (c ∷ s, r, e, k) = inr (star s r refl (ap tail e) k)

module _ (m n : ℕ) where
  late_rest :
      (p t sp : List ℕ) (c : ℕ) (st : List ℕ)
      → Anchored m n p t sp (c ∷ st)
      → Matches (wildcard ∷ sp) st
      → (z : List ℕ) × (r : List ℕ) × (t ≡ z ++ r) × Matches p r
  late_rest p t sp c st a l =
      let (s, r, e, k) = star_inv refl l in
      let (r', e', k') = strip a.lit a.plain (subst (λ x. Matches x r) a.pattern_cut k) in
      let (z, cut) = suffix_after a.lit t c st s r' (sym a.text_cut) (e ∙ ap (λ x. s ++ x) e') in
      (z, r', cut, k')

  late_at_end : (p : List ℕ) (s : Star) → Anchor m n p [] s → Later s → ⊥
  late_at_end p none a l = l
  late_at_end p (some (sp, [])) a l = l
  late_at_end p (some (sp, c ∷ st)) a l =
      let (s, r, e, k) = star_inv refl l in
      let (r', e', k') = strip a.lit a.plain (subst (λ x. Matches x r) a.pattern_cut k) in
      no_room a.lit c st s r' (sym (a.text_cut ∙ append-nil a.lit)) (e ∙ ap (λ x. s ++ x) e')

  late_at_star :
      (q : ℕ) (p t : List ℕ) (s : Star)
      → q ≡ wildcard
      → Anchor m n (q ∷ p) t s
      → Later s
      → Matches (q ∷ p) t
  late_at_star q p t none w a l = absurd l
  late_at_star q p t (some (sp, [])) w a l = absurd l
  late_at_star q p t (some (sp, c ∷ st)) w a l =
      let (z, r, cut, k) = late_rest (q ∷ p) t sp c st a l in
      subst (Matches (q ∷ p)) (sym cut) (star_append z w k)

  text_in_room : (p t : List ℕ) (s : Star) → Anchor m n p t s → length t ≤ room n s
  text_in_room p t none a = omega arith
  text_in_room p t (some (sp, st)) a =
      omega (arith, ap length a.text_cut, length-append {0} a.lit t)

  bounds : (p t : List ℕ) (s : Star) → Anchor m n p t s → (length p ≤ m) × (length t ≤ n)
  bounds p t none a = a
  bounds p t (some (sp, st)) a = (
    omega (arith, ap length a.pattern_cut, length-append {0} a.lit p, a.short_pattern),
    omega (arith, ap length a.text_cut, length-append {0} a.lit t, a.short_text),
  )

  -- A new `*` anchors what follows it.
  Anchor-here : (p t : List ℕ) → length p ≤ m → length t ≤ n → Anchor m n p t (some (p, t))
  Anchor-here p t hp ht = record {
    lit = [];
    plain = tt;
    pattern_cut = refl;
    text_cut = refl;
    short_pattern = hp;
    short_text = ht;
  }

  Anchor-next :
      (q c : ℕ) (p t : List ℕ) (s : Star)
      → q ≢ wildcard
      → q ≡ c
      → Anchor m n (q ∷ p) (c ∷ t) s
      → Anchor m n p t s
  Anchor-next q c p t none w e a = (omega arith, omega arith)
  Anchor-next q c p t (some (sp, st)) w e a = record {
    lit = a.lit ++ (q ∷ []);
    plain = All-snoc a.lit a.plain;
    pattern_cut = a.pattern_cut ∙ sym (append_assoc a.lit (q ∷ []) p);
    text_cut =
        a.text_cut ∙ ap (λ x. a.lit ++ (x ∷ t)) (sym e) ∙ sym (append_assoc a.lit (q ∷ []) t);
    short_pattern = a.short_pattern;
    short_text = a.short_text;
  }
    where
      All-snoc : (l : List ℕ) → All (λ x. x ≢ wildcard) l → All (λ x. x ≢ wildcard) (l ++ (q ∷ []))
      All-snoc [] h = (w, tt)
      All-snoc (x ∷ l) h = (h.0, All-snoc l h.1)

  -- How much is left to do: the text behind the last `*` counts most.
  abbrev left : List ℕ → List ℕ → Star → ℕ
  left p t s = (m + n) * room n s + length t + length p

  abbrev Answers : Option Bool → List ℕ → List ℕ → Star → Type 0
  Answers r p t s = Decides r (Matches p t ⊎ Later s)

  step_back :
      (p t : List ℕ) (c : ℕ) (s : Star) (rest : List ℕ → List ℕ → Star → Option Bool)
      → Anchor m n p (c ∷ t) s
      → ((sp st : List ℕ)
          → Anchor m n sp st (some (sp, st))
          → left sp st (some (sp, st)) < left p (c ∷ t) s
          → Answers (rest sp st (some (sp, st))) sp st (some (sp, st)))
      → Decides
          (elim s [
            | none ↦ some false
            | some (sp, st) ↦ rest sp (drop 1 st) (some (sp, drop 1 st))
          ])
          (Later s)
  step_back p t c none rest a ih = (false, refl, (λ h. cc, λ l. absurd l))
  step_back p t c (some (sp, [])) rest a ih =
      absurd (omega (arith, text_in_room p (c ∷ t) (some (sp, [])) a))
  step_back p t c (some (sp, d ∷ st)) rest a ih =
      Decides-iff _ (or_Later sp st) (at_once_or_Later sp st) (
        ih sp st (Anchor-here sp st a.short_pattern (omega (arith, a.short_text)))
          (omega (arith, a.short_text, a.short_pattern)))

  star_left :
      (q c : ℕ) (p t : List ℕ) (s : Star) {f : ℕ}
      → Anchor m n (q ∷ p) (c ∷ t) s
      → left (q ∷ p) (c ∷ t) s < suc f
      → left p (c ∷ t) (some (p, c ∷ t)) < f
  star_left q c p t s a h =
      let r : length (c ∷ t) ≤ room n s = text_in_room (q ∷ p) (c ∷ t) s a in
      let k : (m + n) * length (c ∷ t) ≤ (m + n) * room n s = grind arith in omega arith

  -- From an anchored state, with the fuel above what is left, the loop answers.
  scan-Answers :
      (f : ℕ) (p t : List ℕ) (s : Star)
      → Anchor m n p t s
      → left p t s < f
      → Answers (scan f p t s) p t s
  unfolding scan
  scan-Answers zero p t s a h = elim h [ ]
  scan-Answers (suc f) p [] s a h = (
    is_empty (skip_stars p),
    refl,
    (
      λ e. inl ((skip_stars-Matches p).0 e),
      elim [ inl k ↦ (skip_stars-Matches p).1 k | inr l ↦ absurd (late_at_end p s a l) ],
    ),
  )
  scan-Answers (suc f) [] (c ∷ t) s a h =
      Decides-iff _ inr (elim [ inl k ↦ absurd (nil_inv k) | inr l ↦ l ])
        (step_back [] t c s (scan f) a
          (λ sp st b lt. scan-Answers f sp st (some (sp, st)) b (omega arith)))
  scan-Answers (suc f) (q ∷ p) (c ∷ t) s a h = elim (Bool-cases (q == wildcard)) [
    | inl w ↦
        let e : q ≡ wildcard = (eqb_iff q wildcard).0 w in
        let b : (length (q ∷ p) ≤ m) × (length (c ∷ t) ≤ n) = bounds (q ∷ p) (c ∷ t) s a in
        rw (w, scan)
          (Decides-iff _
            (λ k. inl (subst (λ x. Matches (x ∷ p) (c ∷ t)) (sym e) (or_Later p (c ∷ t) k)))
            (λ k. at_once_or_Later p (c ∷ t) (
              subst (λ x. Matches (x ∷ p) (c ∷ t)) e
                (elim k [ inl k' ↦ k' | inr l ↦ late_at_star q p (c ∷ t) s e a l ])))
            (scan-Answers f p (c ∷ t) (some (p, c ∷ t)) (Anchor-here p (c ∷ t) (omega arith) b.1)
              (star_left q c p t s a h)))
    | inr n' ↦
        let ne : q ≢ wildcard = λ e. cc (n', (eqb_iff q wildcard).1 e) in
        elim (Bool-cases (q == c)) [
          | inl w ↦
              let e : q ≡ c = (eqb_iff q c).0 w in
              let i : Matches (q ∷ p) (c ∷ t) ↔ Matches p t = char_match_iff q c p t ne e in
              rw (n', w, scan)
                (Decides-iff _ (elim [ inl k ↦ inl (i.1 k) | inr l ↦ inr l ])
                  (elim [ inl k ↦ inl (i.0 k) | inr l ↦ inr l ])
                  (scan-Answers f p t s (Anchor-next q c p t s ne e a) (omega arith)))
          | inr k' ↦
              rw (n', k', scan)
                (Decides-iff _ inr
                  (elim [ inl k ↦ absurd (cc (k', (eqb_iff q c).1 (char_inv ne k).0)) | inr l ↦ l ])
                  (step_back (q ∷ p) t c s (scan f) a
                    (λ sp st b lt. scan-Answers f sp st (some (sp, st)) b (omega arith))))
        ]
  ]

-- The code's test is true of exactly the models that the pattern matches by the definition of matching.
pub pattern_matches-Matches :
    (pattern model : String)
    → (pattern_matches pattern model ≡ true) ↔ Matches (codes pattern) (codes model)
unfolding pattern_matches
pattern_matches-Matches pattern model =
    let p = codes pattern in
    let t = codes model in
    let (b, e, i) =
      scan-Answers (length p) (length t) (rounds (length p) (length t)) p t none
        (omega arith, omega arith) (omega arith) in
    rw e (λ h. elim (i.0 h) [ inl k ↦ k | inr l ↦ absurd l ], λ k. i.1 (inl k))

-- The rounds of the loop are enough for every pattern and text: it ends with an answer.
pub scan_ends :
    (p t : List ℕ) → (b : Bool) × (scan (rounds (length p) (length t)) p t none ≡ some b)
scan_ends p t =
    let (b, e, i) =
      scan-Answers (length p) (length t) (rounds (length p) (length t)) p t none
        (omega arith, omega arith) (omega arith) in
    (b, e)
