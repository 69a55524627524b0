-- ===== src/Gateway/Candidates/Choice.antt =====
-- `decide_mode` and the pin: which protocol an upstream is asked in, and which attempt comes first.
use nextapi.Base.{
  ℤ, eq_z, ◌≡◌, ◌↔◌, refl, subst, inl, inr, Bool, true, false, ◌&&◌, Option, none, some, List, [],
  ◌∷◌, ◌++◌, any, count, arith, Bool-cases, ◌==◌, ℕ_eq,
}
use nextapi.Entities.{Uuid, UpstreamRow}
use nextapi.Protocol.{Protocol, Protocol_eq, protocol_list, protocol_priority}
use nextapi.Gateway.Candidates.{
  passthrough, convert, Attempt, contains, first_supported, decide_mode, take_out,
  reorder_pinned_first,
}

-- The protocol is the first of the list that is supported.
pub data First (supported : List Protocol) (t : Protocol) : List Protocol → Type 0 where
  here : (ts : List Protocol) → contains t supported ≡ true → First supported t (t ∷ ts)
  later :
      (u : Protocol) (ts : List Protocol)
      → contains u supported ≡ false
      → First supported t ts
      → First supported t (u ∷ ts)

first_supported-First :
    (supported : List Protocol) (t : Protocol) (ts : List Protocol)
    → first_supported supported ts ≡ some t
    → First supported t ts
unfolding first_supported
first_supported-First supported t [] h = cc
first_supported-First supported t (u ∷ ts) h = elim (Bool-cases (contains u supported)) [
  | inl e ↦
      let p : u ≡ t = ground (arith, e) in subst (λ x. First supported x (u ∷ ts)) p (here ts e)
  | inr e ↦ later u ts e (first_supported-First supported t ts (ground (arith, e)))
]

none_supported :
    (supported : List Protocol) (ts : List Protocol)
    → first_supported supported ts ≡ none
    → any (λ t. contains t supported) ts ≡ false
unfolding first_supported
none_supported supported [] h = refl
none_supported supported (u ∷ ts) h = ground (arith, none_supported supported ts)

-- What the mode of a request at an upstream says: the request is passed through exactly if the upstream supports
-- its protocol; it is converted to a protocol only if not, and then to the first of the upstream's preferences that
-- it supports; there is no mode only if it supports neither.
pub decide_mode_lem :
    (entry : Protocol) (up : UpstreamRow)
    → ((decide_mode entry up ≡ some passthrough) ↔ (contains entry (protocol_list up) ≡ true))
      × ((t : Protocol)
          → decide_mode entry up ≡ some (convert t)
          → (contains entry (protocol_list up) ≡ false)
            × First (protocol_list up) t (protocol_priority up))
      × (decide_mode entry up ≡ none
          → (contains entry (protocol_list up) ≡ false)
            × (any (λ t. contains t (protocol_list up)) (protocol_priority up) ≡ false))
unfolding decide_mode
decide_mode_lem entry up = (
  ground arith,
  λ t h. (
    ground arith,
    first_supported-First (protocol_list up) t (protocol_priority up) (ground arith),
  ),
  λ h. (ground arith, none_supported (protocol_list up) (protocol_priority up) (ground arith)),
)

abbrev pub is_pinned : Uuid → ℤ → Attempt → Bool
is_pinned pin best b = b.candidate.upstream.id == pin && eq_z b.candidate.route.priority best

-- What `take_out` takes out, and what it leaves.
pub data Taken (p : Attempt → Bool) (xs : List Attempt) (r : Option (Attempt × List Attempt))
    : Type 0 where
  nothing : r ≡ none → count p xs ≡ 0 → Taken p xs r
  taken :
      (before : List Attempt) (b : Attempt) (after : List Attempt)
      → xs ≡ before ++ b ∷ after
      → p b ≡ true
      → count p before ≡ 0
      → r ≡ some (b, before ++ after)
      → Taken p xs r

Taken-later :
    (p : Attempt → Bool) (a : Attempt) (xs : List Attempt)
    → p a ≡ false
    → Taken p xs (take_out p xs)
    → Taken p (a ∷ xs) (take_out p (a ∷ xs))
unfolding take_out
Taken-later p a xs e (nothing h c) = nothing (rw e (rw h refl)) (ground arith)
Taken-later p a xs e (taken before b after q t c h) =
    taken (a ∷ before) b after (rw q refl) t (ground arith) (rw e (rw h refl))

take_out-Taken : (p : Attempt → Bool) (xs : List Attempt) → Taken p xs (take_out p xs)
unfolding take_out
take_out-Taken p [] = nothing refl refl
take_out-Taken p (a ∷ xs) = elim (Bool-cases (p a)) [
  | inl e ↦ taken [] a xs refl e refl (rw e refl)
  | inr e ↦ Taken-later p a xs e (take_out-Taken p xs)
]

-- What the pin does to a list of attempts: nothing, if no attempt of the best priority is for the pinned upstream;
-- else the first such attempt is moved to the front, the others keep their order.
pub data Pinned (pin : Uuid) (best : ℤ) (xs ys : List Attempt) : Type 0 where
  ignored : ys ≡ xs → count (is_pinned pin best) xs ≡ 0 → Pinned pin best xs ys
  moved :
      (before : List Attempt) (b : Attempt) (after : List Attempt)
      → xs ≡ before ++ b ∷ after
      → is_pinned pin best b ≡ true
      → count (is_pinned pin best) before ≡ 0
      → ys ≡ b ∷ before ++ after
      → Pinned pin best xs ys

pinned :
    (pin : Uuid) (a : Attempt) (rest : List Attempt)
    → Taken
        (is_pinned pin a.candidate.route.priority)
        (a ∷ rest)
        (take_out (is_pinned pin a.candidate.route.priority) (a ∷ rest))
    → Pinned pin a.candidate.route.priority (a ∷ rest) (reorder_pinned_first pin (a ∷ rest))
unfolding reorder_pinned_first
pinned pin a rest (nothing h c) = ignored (rw (h, reorder_pinned_first) refl) c
pinned pin a rest (taken before b after q t c h) =
    moved before b after q t c (rw (h, reorder_pinned_first) refl)

-- With a pin, the attempts stay as they are if none of the best priority is for the pinned upstream; else the first
-- such attempt comes first and the others follow in their order.
pub reorder_pinned_first_lem :
    (pin : Uuid) (a : Attempt) (rest : List Attempt)
    → Pinned pin a.candidate.route.priority (a ∷ rest) (reorder_pinned_first pin (a ∷ rest))
reorder_pinned_first_lem pin a rest =
    pinned pin a rest (take_out-Taken (is_pinned pin a.candidate.route.priority) (a ∷ rest))
