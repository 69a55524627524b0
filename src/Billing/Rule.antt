-- ===== src/Billing/Rule.antt =====
-- src/billing/mod.rs: price rules, when they hold, which of them is the better one, and the segments of a rule.
pub mod Order
use nextapi.Base.{
  ℕ, ℤ, pos, negsuc, sat_add_z, pos_part, neg_part, cut_at, ◌+◌, ◌-◌, ◌%◌, ◌^◌, ◌*◌, String, Bool,
  true, false, ◌&&◌, ◌||◌, not, Option, none, some, List, [], ◌∷◌, any, if◌then◌else◌, le_z, lt_z,
  eq_z, leb, ltb, eqb, is_text,
}
use nextapi.Base.Json.{Value}
use nextapi.Entities.{Uuid, Time}
use nextapi.Protocol.Finish.{to_lower}

pub record Segment {ℓ} (D : Type ℓ) : Type ℓ where
  pub name : Option String
  pub price : D
  pub weekdays : Option (List String)
  pub windows : Option (List (String × String))
  pub min_prompt_tokens : Option ℤ
  pub max_prompt_tokens : Option ℤ

pub record PricingInput {ℓ} (D : Type ℓ) : Type ℓ where
  pub at : Time
  pub prompt_tokens : Option ℤ
  pub completion_tokens : Option ℤ
  pub cache_write_tokens : Option ℤ
  pub cache_read_tokens : Option ℤ
  pub images : Option ℤ
  pub image_size : Option String
  pub video_seconds : Option D
  pub video_resolution : Option String
  pub video_task_type : Option String

-- The columns that prices are computed from.
pub record PriceRuleRow {ℓ} (D : Type ℓ) : Type ℓ where
  pub id : Uuid
  pub unit : String
  pub currency : String
  pub base_price : D
  pub dimension_key : String
  pub segments : Option Value
  pub context_basis : String
  pub effective_from : Option Time
  pub effective_to : Option Time
  pub priority : ℤ
  pub sort_order : ℤ
  pub enabled : Bool
  pub created_at : Time

abbrev not_before : Option Time → Time → Bool
not_before none at = true
not_before (some f) at = not (ltb at f)

abbrev not_after : Option Time → Time → Bool
not_after none at = true
not_after (some t) at = not (ltb t at)

-- The clock and the time zone are the caller's: the weekday and the minutes of the day in the billing zone.
pub record Local : Type 0 where
  pub weekday : String
  pub minutes : ℤ

-- What the source leaves to libraries: the number in a text, as `trim().parse::<i32>()` reads it, and the segments in
-- a JSON value.
pub record Readers {ℓ} (D : Type ℓ) : Type ℓ where
  pub i32 : String → Option ℤ
  pub segments : Value → Option (List (Segment D))

-- The number of 32 bits that the difference of two numbers wraps to.
abbrev wrap_i32 : (plus minus : ℕ) → ℤ
wrap_i32 plus minus =
    let w = (plus + (2 ^ 32 - minus % 2 ^ 32)) % 2 ^ 32 in
    if ltb w (2 ^ 31) then pos w else negsuc (2 ^ 32 - w - 1)

-- `h * 60 + min`
abbrev minutes_of : ℤ → ℤ → ℤ
minutes_of h m = wrap_i32 (pos_part h * 60 + pos_part m) (neg_part h * 60 + neg_part m)

abbrev both : Option ℤ → Option ℤ → Option ℤ
both (some h) (some m) = some (minutes_of h m)
both (some h) none = none
both none m = none

-- The text before the first colon, or all of it.
abbrev before_colon : String → String
before_colon s = elim (cut_at b':' s) [ none ↦ s | some (a, b) ↦ a ]

abbrev pub hits : Option ℤ → Option ℤ → ℤ → Bool
hits none e t = false
hits (some s) none t = false
hits (some s) (some e) t = if le_z s e then le_z s t && le_z t e else le_z s t || lt_z t e

abbrev at_least : Option ℤ → ℤ → Bool
at_least none v = true
at_least (some m) v = not (lt_z v m)

abbrev at_most : Option ℤ → ℤ → Bool
at_most none v = true
at_most (some m) v = not (lt_z m v)

abbrev or_zero : Option ℤ → ℤ
or_zero none = pos 0
or_zero (some z) = z

-- A list that is absent or empty sets no condition.
abbrev any_of {ℓ} : {A : Type ℓ} → (A → Bool) → Option (List A) → Bool
any_of p none = true
any_of p (some []) = true
any_of p (some (x ∷ xs)) = any p (x ∷ xs)

module _ {ℓ} {D : Type ℓ} where
  unfoldable pub in_effect : PriceRuleRow D → Time → Bool
  in_effect rule at = not_before rule.effective_from at && not_after rule.effective_to at

  -- `a` takes the place of `b`.
  unfoldable pub better_rule : PriceRuleRow D → PriceRuleRow D → Bool
  better_rule a b =
      if not (eq_z a.priority b.priority)
      then lt_z b.priority a.priority
      else if not (eq_z a.sort_order b.sort_order)
      then lt_z a.sort_order b.sort_order
      else if not (eqb a.created_at b.created_at)
      then ltb a.created_at b.created_at
      else ltb a.id b.id

  unfoldable pub parse_hhmm : Readers D → String → Option ℤ
  parse_hhmm readers s = elim (cut_at b':' s) [
    | none ↦ none
    | some (h, rest) ↦ both (readers.i32 h) (readers.i32 (before_colon rest))
  ]

  unfoldable pub window_hit : Readers D → String → String → ℤ → Bool
  unfolding parse_hhmm
  window_hit readers start end minutes =
      hits (parse_hhmm readers start) (parse_hhmm readers end) minutes

  unfoldable pub context_value : PriceRuleRow D → PricingInput D → ℤ
  context_value rule input =
      if is_text rule.context_basis "total_tokens"
      then sat_add_z (or_zero input.prompt_tokens) (or_zero input.completion_tokens)
      else or_zero input.prompt_tokens

  unfoldable pub segment_matches : Readers D → Segment D → ℤ → Local → Bool
  unfolding window_hit
  segment_matches readers seg ctx local =
      any_of (λ w. is_text (to_lower w) (to_lower local.weekday)) seg.weekdays
      && any_of (λ w. window_hit readers w.0 w.1 local.minutes) seg.windows
      && at_least seg.min_prompt_tokens ctx
      && at_most seg.max_prompt_tokens ctx

  -- The first segment that matches.
  unfoldable pub first_match : Readers D → List (Segment D) → ℤ → Local → Option (D × Option String)
  unfolding segment_matches
  first_match readers [] ctx local = none
  first_match readers (s ∷ ss) ctx local =
      let rest = first_match readers ss ctx local in
      if segment_matches readers s ctx local then some (s.price, s.name) else rest

  abbrev read_segments : Readers D → Option Value → List (Segment D)
  read_segments readers none = []
  read_segments readers (some v) = elim (readers.segments v) [ none ↦ [] | some l ↦ l ]

  unfoldable pub match_segment :
      Readers D → PriceRuleRow D → PricingInput D → Local → Option (D × Option String)
  unfolding first_match context_value
  match_segment readers rule input local =
      first_match readers (read_segments readers rule.segments) (context_value rule input) local
