-- ===== src/Sse/Chunks.antt =====
-- The events of a stream do not depend on where the network cuts it.
use nextapi.Base.{
  ℕ, ◌≡◌, refl, sym, ap, ◌∙◌, inl, inr, Bool, false, List, [], ◌∷◌, ◌++◌, eqb, any, arith,
  Bool-cases,
}
use nextapi.Sse.{Line, newline, Parser, cut, take_line, trim_end, take_lines, feed}

pub append_assoc {ℓ} : {A : Type ℓ} (xs ys zs : List A) → (xs ++ ys) ++ zs ≡ xs ++ (ys ++ zs)
append_assoc [] ys zs = refl
append_assoc (x ∷ xs) ys zs = rw (append_assoc xs ys zs) refl

pub append_nil {ℓ} : {A : Type ℓ} (xs : List A) → xs ++ [] ≡ xs
append_nil [] = refl
append_nil (x ∷ xs) = rw (append_nil xs) refl

abbrev has_newline : List ℕ → Bool
has_newline = any (λ b. eqb b newline)

cut-append :
    (line xs ys : List ℕ)
    → cut line (xs ++ ys)
      ≡ ((cut line xs).0 ++ (cut (cut line xs).1 ys).0, (cut (cut line xs).1 ys).1)
unfolding cut
cut-append line [] ys = refl
cut-append line (b ∷ xs) ys = elim (Bool-cases (eqb b newline)) [
  | inl e ↦ rw e (rw (cut-append [] xs ys) refl)
  | inr e ↦ rw e (rw (cut-append (line ++ (b ∷ [])) xs ys) refl)
]

-- What has no newline is not cut.
cut-whole :
    (line xs ys : List ℕ) → has_newline xs ≡ false → cut line (xs ++ ys) ≡ cut (line ++ xs) ys
unfolding cut
cut-whole line [] ys h = rw (append_nil line) refl
cut-whole line (b ∷ xs) ys h =
    let e : eqb b newline ≡ false = ground arith in
    let ih = cut-whole (line ++ (b ∷ [])) xs ys (ground arith) in
    rw e (ih ∙ ap (λ l. cut l ys) (append_assoc line (b ∷ []) xs))

has_newline-append :
    (xs ys : List ℕ)
    → has_newline xs ≡ false
    → has_newline ys ≡ false
    → has_newline (xs ++ ys) ≡ false
has_newline-append [] ys h k = k
has_newline-append (x ∷ xs) ys h k = ground (arith, has_newline-append xs ys)

cut-rest : (line xs : List ℕ) → has_newline line ≡ false → has_newline (cut line xs).1 ≡ false
unfolding cut
cut-rest line [] h = h
cut-rest line (b ∷ xs) h = elim (Bool-cases (eqb b newline)) [
  | inl e ↦ rw e (cut-rest [] xs refl)
  | inr e ↦
      rw e (cut-rest (line ++ (b ∷ [])) xs (has_newline-append line (b ∷ []) h (ground (arith, e))))
]

module _ (decode : List ℕ → Line) where
  take_lines-append :
      (ds ls ks : List Line)
      → take_lines decode ds (ls ++ ks) ≡ (
        (take_lines decode (take_lines decode ds ls).0 ks).0,
        (take_lines decode ds ls).1 ++ (take_lines decode (take_lines decode ds ls).0 ks).1,
      )
  unfolding take_lines
  take_lines-append ds [] ks = refl
  take_lines-append ds (l ∷ ls) ks =
      let step = take_line ds (trim_end (decode l)) in
      rw (take_lines-append step.0 ls ks) (
        ap (λ out. ((take_lines decode (take_lines decode step.0 ls).0 ks).0, out))
          (sym (
            append_assoc step.1 (take_lines decode step.0 ls).1
              (take_lines decode (take_lines decode step.0 ls).0 ks).1)))

  cut-twice :
      (buf xs ys : List ℕ)
      → cut [] (buf ++ (xs ++ ys)) ≡ (
        (cut [] (buf ++ xs)).0 ++ (cut [] ((cut [] (buf ++ xs)).1 ++ ys)).0,
        (cut [] ((cut [] (buf ++ xs)).1 ++ ys)).1,
      )
  cut-twice buf xs ys =
      let rest = (cut [] (buf ++ xs)).1 in
      let whole = cut-whole [] rest ys (cut-rest [] (buf ++ xs) refl) in
      ap (cut []) (sym (append_assoc buf xs ys))
      ∙ cut-append [] (buf ++ xs) ys
      ∙ ap (λ c. ((cut [] (buf ++ xs)).0 ++ c.0, c.1)) (sym whole)

  -- Feeding a stream in two pieces, cut at any byte, gives the same parser and the same events as feeding it at once.
  pub feed-append :
      (p : Parser) (xs ys : List ℕ)
      → feed decode p (xs ++ ys) ≡ (
        (feed decode (feed decode p xs).0 ys).0,
        (feed decode p xs).1 ++ (feed decode (feed decode p xs).0 ys).1,
      )
  unfolding feed
  feed-append p xs ys =
      let ls = (cut [] (p.buf ++ xs)).0 in
      let ks = (cut [] ((cut [] (p.buf ++ xs)).1 ++ ys)).0 in
      rw (cut-twice p.buf xs ys, feed) (rw (take_lines-append p.data_lines ls ks, feed) refl)
