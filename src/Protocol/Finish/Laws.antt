-- ===== src/Protocol/Finish/Laws.antt =====
-- src/protocol/ir.rs: a finish reason is normalised once and for all.
use Prim.Native.Char.{Char, code}
use nextapi.Base.{
  String, Bool, true, false, ◌&&◌, not, List, [], ◌∷◌, eqb, if◌then◌else◌, ◌≡◌, refl, ap, ◌∙◌,
  Bool-cases, inl, inr, arith,
}
use nextapi.Protocol.Finish.{
  letters, lower_by, to_lower, among, in_openai_words, normalize_finish_reason,
}

-- The character is none of those that the table replaces.
outside : List (Char × Char) → Char → Bool
outside [] c = true
outside ((u, l) ∷ r) c = not (eqb (code u) (code c)) && outside r c

lower_by-outside : (t : List (Char × Char)) (c : Char) → outside t c ≡ true → lower_by t c ≡ c
unfolding lower_by outside
lower_by-outside [] c h = refl
lower_by-outside ((u, l) ∷ r) c h = ground (arith, lower_by-outside r c)

targets_outside : (t whole : List (Char × Char)) → Bool
targets_outside [] whole = true
targets_outside ((u, l) ∷ r) whole = outside whole l && targets_outside r whole

outside-lower_by :
    (t whole : List (Char × Char)) (c : Char)
    → targets_outside t whole ≡ true
    → (outside t c ≡ true → outside whole c ≡ true)
    → outside whole (lower_by t c) ≡ true
unfolding lower_by outside targets_outside
outside-lower_by [] whole c h k = k refl
outside-lower_by ((u, l) ∷ r) whole c h k = elim (Bool-cases (eqb (code u) (code c))) [
  | inl e ↦ rw e (ground (arith, h))
  | inr e ↦ rw e (outside-lower_by r whole c (ground (arith, h)) (λ q. k (rw e q)))
]

lower_char_idem : (c : Char) → lower_by letters (lower_by letters c) ≡ lower_by letters c
unfolding targets_outside outside
lower_char_idem c =
    lower_by-outside letters (lower_by letters c) (outside-lower_by letters letters c refl (λ q. q))

to_lower_idem : (s : String) → to_lower (to_lower s) ≡ to_lower s
unfolding to_lower
to_lower_idem String.[] = refl
to_lower_idem (String.◌∷◌ c s) =
    ap (λ x. String.◌∷◌ x (to_lower (to_lower s))) (lower_char_idem c)
    ∙ ap (λ r. String.◌∷◌ (lower_by letters c) r) (to_lower_idem s)

-- A choice between two fixed words.
settled_if :
    (b : Bool) (x y : String)
    → normalize_finish_reason x ≡ x
    → (b ≡ false → normalize_finish_reason y ≡ y)
    → normalize_finish_reason (if b then x else y) ≡ (if b then x else y)
settled_if true x y h k = h
settled_if false x y h k = k refl

words-settled :
    (t : String) → to_lower t ≡ t → normalize_finish_reason (in_openai_words t) ≡ in_openai_words t
unfolding normalize_finish_reason to_lower lower_by
words-settled t e =
    settled_if (among t ("stop" ∷ "end_turn" ∷ "stop_sequence" ∷ "completed" ∷ "finished" ∷ [])) _ _
      refl
      (λ a.
        settled_if (among t ("length" ∷ "max_tokens" ∷ "max_output_tokens" ∷ "incomplete" ∷ [])) _ _
          refl
          (λ b.
            settled_if (among t ("tool_calls" ∷ "tool_use" ∷ "function_call" ∷ [])) _ _ refl (λ c.
              settled_if (among t ("content_filter" ∷ "safety" ∷ "blocked" ∷ "recitation" ∷ [])) _ _
                refl (λ d. ap in_openai_words e ∙ rw (a, b, c, d) refl))))

pub normalize_finish_reason_idem :
    (raw : String)
    → normalize_finish_reason (normalize_finish_reason raw) ≡ normalize_finish_reason raw
unfolding normalize_finish_reason
normalize_finish_reason_idem raw = words-settled (to_lower raw) (to_lower_idem raw)
