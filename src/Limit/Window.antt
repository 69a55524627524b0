-- ===== src/Limit/Window.antt =====
-- What the sliding window promises.
use nextapi.Base.{
  ℕ, ◌+◌, ◌-◌, ◌%◌, ◌^◌, ◌≤◌, ◌<◌, ◌≡◌, ◌⊎◌, refl, ap, inl, inr, Bool, true, false, ◌&&◌, List, [],
  ◌∷◌, ◌++◌, ltb, leb, eqb, length, count, All, length-append, count-append, arith, if◌then◌else◌,
  ℕ_eq, Bool-cases,
}
use nextapi.Entities.{Time}
use nextapi.Limit.{Queue, drop_expired, window_allow}

module _ (now window : ℕ) where
  -- What is dropped is older than the window.
  pub dropped :
      (q : Queue)
      → (d : Queue) × (q ≡ d ++ drop_expired now window q) × All (λ t. t + window < now) d
  unfolding drop_expired
  dropped [] = ([], refl, tt)
  dropped (t ∷ q) = elim (Bool-cases (ltb window (now - t))) [
    | inl e ↦ let (d, cut, old) = dropped q in (t ∷ d, rw e (ap (◌∷◌ t) cut), (ground arith, old))
    | inr e ↦ ([], rw e, tt)
  ]

-- Times that do not fall, from a first bound on.
abbrev pub Rising : ℕ → List Time → Type 0
Rising last [] = Unit
Rising last (t ∷ ts) = (last ≤ t) × Rising t ts

Rising-from : (a b : ℕ) (ts : List Time) → a ≤ b → Rising b ts → Rising a ts
Rising-from a b [] h r = tt
Rising-from a b (t ∷ ts) h r = (omega arith, r.1)

-- In a queue in order, what the loop keeps is what is no older than the window.
count-drop_expired :
    (now window last : ℕ) (q : Queue)
    → Rising last q
    → length (drop_expired now window q) ≡ count (λ t. leb now (t + window)) q
unfolding drop_expired
count-drop_expired now window last [] r = refl
count-drop_expired now window last (t ∷ q) r =
    ground (arith, count-drop_expired now window t q, all_young t q)
  where
    all_young :
        (t : ℕ) (q : Queue)
        → Rising t q
        → now ≤ t + window
        → count (λ t. leb now (t + window)) q ≡ length q
    all_young t [] r h = refl
    all_young t (s ∷ q) r h = ground (arith, all_young s q)

pub count-le-length : (p : ℕ → Bool) (q : List ℕ) → count p q ≤ length q
count-le-length p [] = omega arith
count-le-length p (t ∷ q) = ground (arith, count-le-length p q)

-- On a queue in order and shorter than 2³², a positive limit admits a request exactly if fewer
-- than the limit of the times are at most a window old.
pub window_allow_exact :
    (q : Queue) (now limit window last : ℕ)
    → Rising last q
    → length q < 2 ^ 32
    → 0 < limit
    → (window_allow q now limit window).1 ≡ ltb (count (λ t. leb now (t + window)) q) limit
unfolding window_allow
window_allow_exact q now limit window last r short h =
    let kept : length (drop_expired now window q) ≡ count (λ t. leb now (t + window)) q =
      count-drop_expired now window last q r in
    let few : count (λ t. leb now (t + window)) q ≤ length q =
      count-le-length (λ t. leb now (t + window)) q in
    ground arith

-- The requests that a window admits out of the calls at the given times.
pub admitted : ℕ → ℕ → List Time → Queue → List Time
admitted limit window [] q = []
admitted limit window (now ∷ calls) q =
    let (q', yes_) = window_allow q now limit window in
    let rest = admitted limit window calls q' in if yes_ then now ∷ rest else rest

abbrev pub in_span : ℕ → ℕ → Time → Bool
in_span start window t = leb start t && leb t (start + window)

-- What was dropped is outside each span that holds the present.
none_in_span :
    (start window now : ℕ) (old : List Time)
    → now ≤ start + window
    → All (λ t. t + window < now) old
    → count (in_span start window) old ≡ 0
none_in_span start window now [] h a = refl
none_in_span start window now (t ∷ old) h a =
    ground (arith, none_in_span start window now old h a.1)

module _ (limit window start : ℕ) (some_limit : 0 < limit) where
  abbrev spanned : List Time → ℕ
  spanned = count (in_span start window)

  older :
      (now : ℕ) (last : ℕ) (old : List Time)
      → last ≤ now
      → All (λ t. t + window < last) old
      → All (λ t. t + window < now) old
  older now last [] h a = tt
  older now last (t ∷ old) h a = (omega arith, older now last old h a.1)

  All-append :
      (now : ℕ) (xs ys : List Time)
      → All (λ t. t + window < now) xs
      → All (λ t. t + window < now) ys
      → All (λ t. t + window < now) (xs ++ ys)
  All-append now [] ys a b = b
  All-append now (x ∷ xs) ys a b = (a.0, All-append now xs ys a.1 b)

  -- The two outcomes of a call.
  cases :
      (now : ℕ) (q : Queue)
      → length q < 2 ^ 32
      → ((window_allow q now limit window ≡ (drop_expired now window q, false))
          × (length (drop_expired now window q) ≤ length q))
        ⊎ ((window_allow q now limit window ≡ (drop_expired now window q ++ (now ∷ []), true))
            × (length (drop_expired now window q) < limit)
            × (length (drop_expired now window q) ≤ length q))
  unfolding window_allow
  cases now q short =
      let (d, cut, gone) = dropped now window q in
      let shorter : length (drop_expired now window q) ≤ length q =
        omega (arith, ap length cut, length-append {0} d (drop_expired now window q)) in
      let positive : eqb limit 0 ≡ false = ground arith in
      elim (Bool-cases (leb limit (length (drop_expired now window q)))) [
        | inl e ↦ inl (
          let wrapped : leb limit (length (drop_expired now window q) % 2 ^ 32) ≡ true =
                ground arith in
              rw (positive, wrapped),
          shorter,
        )
        | inr e ↦ inr (
          let wrapped : leb limit (length (drop_expired now window q) % 2 ^ 32) ≡ false =
                ground arith in
              rw (positive, wrapped),
          ground arith,
          shorter,
        )
      ]

  fits_in :
      (now : ℕ) (old kept : List Time) {n : ℕ}
      → All (λ t. t + window < now) old
      → length kept < limit
      → spanned old + spanned kept ≤ limit
      → n ≡ spanned old + spanned kept + (if in_span start window now then 1 else 0)
      → n ≤ limit
  fits_in now old kept gone room h e = elim (Bool-cases (in_span start window now)) [
    | inl y ↦
        let held : now ≤ start + window = ground arith in
        let empty : spanned old ≡ 0 = none_in_span start window now old held gone in
        let few : spanned kept ≤ length kept = count-le-length (in_span start window) kept in
        ground arith
    | inr n' ↦ ground arith
  ]

  -- `old ++ q` is all that was admitted so far; `old` has been dropped by the time `last`.
  bounded :
      (calls : List Time) (last : ℕ) (old q : List Time)
      → Rising last calls
      → All (λ t. t + window < last) old
      → length q < 2 ^ 32
      → spanned (old ++ q) ≤ limit
      → limit < 2 ^ 32
      → spanned (old ++ q) + spanned (admitted limit window calls q) ≤ limit
  unfolding admitted window_allow
  bounded [] last old q r a short h wide = omega arith
  bounded (now ∷ calls) last old q r a short h wide =
      let (d, cut, gone) = dropped now window q in
      let kept = drop_expired now window q in
      let all_old : All (λ t. t + window < now) (old ++ d) =
        All-append now old d (older now last old r.0 a) gone in
      let parts : spanned (old ++ q) ≡ spanned (old ++ d) + spanned kept = omega (
        arith,
        ap (λ x. spanned (old ++ x)) cut,
        count-append (in_span start window) old (d ++ kept),
        count-append (in_span start window) d kept,
        count-append (in_span start window) old d,
      ) in
      let joined : spanned ((old ++ d) ++ kept) ≡ spanned (old ++ d) + spanned kept =
        count-append (in_span start window) (old ++ d) kept in
      elim (cases now q short) [
        | inl (e, shorter) ↦
            let ih : spanned ((old ++ d) ++ kept) + spanned (admitted limit window calls kept)
                ≤ limit =
              bounded calls now (old ++ d) kept r.1 all_old (omega arith) (omega arith) wide in
            rw e (omega arith)
        | inr (e, room, shorter) ↦
            let grown : spanned ((old ++ d) ++ (kept ++ (now ∷ [])))
                ≡ spanned (old ++ d) + spanned kept + (if in_span start window now then 1 else 0) =
              omega (
                arith,
                count-append (in_span start window) (old ++ d) (kept ++ (now ∷ [])),
                count-append (in_span start window) kept (now ∷ []),
              ) in
            let fits : spanned ((old ++ d) ++ (kept ++ (now ∷ []))) ≤ limit =
              fits_in now (old ++ d) kept all_old room (omega arith) grown in
            let ih : spanned ((old ++ d) ++ (kept ++ (now ∷ [])))
                  + spanned (admitted limit window calls (kept ++ (now ∷ [])))
                ≤ limit =
              bounded calls now (old ++ d) (kept ++ (now ∷ [])) r.1 all_old
                (omega (arith, length-append {0} kept (now ∷ []))) fits wide in
            rw e (omega arith)
      ]

-- From an empty window and with a limit from 1 to 2³² - 1: in every span as long as the window the
-- calls that were admitted are at most the limit, for any sequence of calls whose times do not fall.
pub rate_bound :
    (limit window start : ℕ) (calls : List Time)
    → 0 < limit
    → limit < 2 ^ 32
    → Rising 0 calls
    → count (in_span start window) (admitted limit window calls []) ≤ limit
rate_bound limit window start calls positive wide r =
    omega (
      arith,
      bounded limit window start positive calls 0 [] [] r tt (omega arith) (omega arith) wide,
    )
