-- ===== src/Sse/Trip.antt =====
-- An event that was encoded is read back by the parser.
use nextapi.Base.{
  ℕ, ◌≡◌, refl, sym, ap, ◌∙◌, inl, inr, Bool, true, false, ◌&&◌, ◌||◌, not, List, [], ◌∷◌, ◌++◌,
  eqb, ltb, all, arith, Bool-cases,
}
use nextapi.Sse.{
  Line, newline, carriage_return, space, data_colon, cut, take_line, trim_end, take_lines, feed,
  fresh, split, encode_lines, encode_event, join, strip_prefix,
}
use nextapi.Sse.Chunks.{append_assoc, append_nil}

-- ASCII without a line's end.
abbrev plain : ℕ → Bool
plain c = ltb c 128 && not (eqb c newline) && not (eqb c carriage_return)

cut-line :
    (line l rest : List ℕ)
    → all plain l ≡ true
    → cut line (l ++ newline ∷ rest)
      ≡ ((line ++ (l ++ newline ∷ [])) ∷ (cut [] rest).0, (cut [] rest).1)
unfolding cut
cut-line line [] rest h = refl
cut-line line (c ∷ l) rest h =
    let e : eqb c newline ≡ false = ground arith in
    rw e (
      cut-line (line ++ (c ∷ [])) l rest (ground arith)
      ∙ ap (λ k. (k ∷ (cut [] rest).0, (cut [] rest).1))
          (append_assoc line (c ∷ []) (l ++ newline ∷ [])))

trim-line : (l : Line) → all plain l ≡ true → trim_end (l ++ newline ∷ []) ≡ l
unfolding trim_end
trim-line [] h = refl
trim-line (c ∷ l) h =
    rw (trim-line l (ground arith))
      (let e : (eqb c newline || eqb c carriage_return) ≡ false = ground arith in rw e refl)

-- A line of an event, as it is sent.
abbrev sent : Line → List ℕ
sent l = data_colon ++ space ∷ l ++ newline ∷ []

cut-encode :
    (l : Line) (ls : List Line)
    → all plain l ≡ true
    → cut [] (encode_lines (l ∷ ls))
      ≡ (sent l ∷ (cut [] (encode_lines ls)).0, (cut [] (encode_lines ls)).1)
unfolding encode_lines
cut-encode l ls h = cut-line [] (data_colon ++ space ∷ l) (encode_lines ls) h

take_data :
    (ds : List Line) (l : Line) → take_line ds (data_colon ++ space ∷ l) ≡ (ds ++ (l ∷ []), [])
unfolding take_line strip_prefix
take_data [] l = refl
take_data (d ∷ ds) l = refl

abbrev emits : List Line → List Line
emits [] = []
emits (d ∷ ds) = join (d ∷ ds) ∷ []

take_empty : (ds : List Line) → take_line ds [] ≡ ([], emits ds)
unfolding take_line
take_empty [] = refl
take_empty (d ∷ ds) = refl

module _ (decode : List ℕ → Line)
    (decode_ascii : (xs : List ℕ) → all (λ c. ltb c 128) xs ≡ true → decode xs ≡ xs) where
  decode-sent :
      (l : Line) → all plain l ≡ true → trim_end (decode (sent l)) ≡ data_colon ++ space ∷ l
  decode-sent l h =
      ap trim_end (decode_ascii (sent l) (sent_ascii l h)) ∙ trim-line (data_colon ++ space ∷ l) h
    where
      sent_ascii : (k : Line) → all plain k ≡ true → all (λ c. ltb c 128) (k ++ newline ∷ []) ≡ true
      sent_ascii [] g = refl
      sent_ascii (c ∷ k) g = ground (arith, sent_ascii k)

  take_lines-sent :
      (ds : List Line) (l : Line) (ks : List Line)
      → all plain l ≡ true
      → take_lines decode ds (sent l ∷ ks) ≡ take_lines decode (ds ++ (l ∷ [])) ks
  unfolding take_lines
  take_lines-sent ds l ks h = rw (decode-sent l h) refl

  take_lines-end : (ds : List Line) → take_lines decode ds ((newline ∷ []) ∷ []) ≡ ([], emits ds)
  unfolding take_lines trim_end
  take_lines-end ds =
      let e : decode (newline ∷ []) ≡ newline ∷ [] = decode_ascii (newline ∷ []) refl in
      rw e (rw (take_empty ds) (ap (λ out. ([], out)) (append_nil (emits ds))))

  read-lines :
      (ds ls : List Line)
      → all (all plain) ls ≡ true
      → (take_lines decode ds (cut [] (encode_lines ls)).0 ≡ ([], emits (ds ++ ls)))
        × ((cut [] (encode_lines ls)).1 ≡ [])
  unfolding encode_lines cut
  read-lines ds [] h = (take_lines-end ds ∙ ap (λ xs. ([], emits xs)) (sym (append_nil ds)), refl)
  read-lines ds (l ∷ ls) h =
      let e = cut-encode l ls (ground arith) in
      let (ih, rest) = read-lines (ds ++ (l ∷ [])) ls (ground arith) in
      (
        ap (λ c. take_lines decode ds c.0) e
            ∙ (take_lines-sent ds l (cut [] (encode_lines ls)).0 (ground arith)
                ∙ (ih ∙ ap (λ xs. ([], emits xs)) (append_assoc ds (l ∷ []) ls))),
        ap (λ c. c.1) e ∙ rest,
      )

-- ASCII data without carriage returns.
abbrev pub readable : List ℕ → Bool
readable = all (λ c. ltb c 128 && not (eqb c carriage_return))

data Cons (ls : List Line) : Type 0 where
  cons : (k : Line) (ks : List Line) → ls ≡ k ∷ ks → Cons ls

split-Cons : (line cs : List ℕ) → Cons (split line cs)
unfolding split
split-Cons line [] = cons line [] refl
split-Cons line (c ∷ cs) = elim (Bool-cases (eqb c newline)) [
  | inl e ↦ rw e (cons line (split [] cs) refl)
  | inr e ↦ rw e (split-Cons (line ++ (c ∷ [])) cs)
]

join-Cons : (l : Line) (ls : List Line) → Cons ls → join (l ∷ ls) ≡ l ++ newline ∷ join ls
unfolding join
join-Cons l ls (cons k ks e) = rw e refl

join-split : (line cs : List ℕ) → join (split line cs) ≡ line ++ cs
unfolding split join
join-split line [] = sym (append_nil line)
join-split line (c ∷ cs) = elim (Bool-cases (eqb c newline)) [
  | inl e ↦
      let n : c ≡ newline = ground (arith, e) in
      rw e (
        join-Cons line (split [] cs) (split-Cons [] cs)
        ∙ ap (λ xs. line ++ newline ∷ xs) (join-split [] cs)
        ∙ ap (λ x. line ++ x ∷ cs) (sym n))
  | inr e ↦ rw e (join-split (line ++ (c ∷ [])) cs ∙ append_assoc line (c ∷ []) cs)
]

all-append :
    (xs ys : List ℕ) → all plain xs ≡ true → all plain ys ≡ true → all plain (xs ++ ys) ≡ true
all-append [] ys h k = k
all-append (x ∷ xs) ys h k = ground (arith, all-append xs ys)

split-plain :
    (line cs : List ℕ)
    → all plain line ≡ true
    → readable cs ≡ true
    → all (all plain) (split line cs) ≡ true
unfolding split
split-plain line [] h k = ground arith
split-plain line (c ∷ cs) h k = elim (Bool-cases (eqb c newline)) [
  | inl e ↦ rw e (ground (arith, h, split-plain [] cs refl))
  | inr e ↦ rw e (
      split-plain (line ++ (c ∷ [])) cs (all-append line (c ∷ []) h (ground (arith, e)))
        (ground arith))
]

emits-Cons : (ls : List Line) → Cons ls → emits ls ≡ join ls ∷ []
emits-Cons ls (cons k ks e) = rw e refl

-- A parser that is fed an encoded event gives back exactly its data, in one event, and is as new; the data is ASCII
-- without carriage returns, and may have newlines.
pub feed-encode_event :
    (decode : List ℕ → Line)
    → ((xs : List ℕ) → all (λ c. ltb c 128) xs ≡ true → decode xs ≡ xs)
    → (payload : List ℕ) → readable payload ≡ true
    → feed decode fresh (encode_event payload) ≡ (fresh, payload ∷ [])
unfolding feed encode_event
feed-encode_event decode d payload h =
    let (e, rest) = read-lines decode d [] (split [] payload) (split-plain [] payload refl h) in
    rw (e, feed)
      (rw (rest, feed)
        (ap (λ out. (fresh, out))
          (emits-Cons (split [] payload) (split-Cons [] payload)
            ∙ ap (λ x. x ∷ []) (join-split [] payload))))
