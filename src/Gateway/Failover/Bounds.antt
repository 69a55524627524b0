-- ===== src/Gateway/Failover/Bounds.antt =====
-- How many calls a request makes.
use nextapi.Base.{
  ℕ, zero, suc, ◌+◌, ◌*◌, ◌≤◌, ◌≡◌, inl, inr, Bool, true, false, Option, none, some, List, [], ◌∷◌,
  count, count-append, arith, Option-cases,
}
use nextapi.Upstream.{UpstreamError, auth_failure}
use nextapi.Entities.{Uuid}
use nextapi.Gateway.Candidates.{Attempt}
use nextapi.Gateway.Failover.{
  Setup, Channel, unprepared, one_call, over_websocket, falls_back, exec_res, calls, pass, up_id,
  End, Effect, follow, candidate, asked, waited, Round, Exec, json, unconverted, stream, failure,
  finished, next_candidate, stop, on_error, reply, ask, run, retry_limit, all_failed, after_convert,
  after_calls, Progress, backoff, parse, unsupported, ConvertError,
}

abbrev pub is_asked : Effect → Bool
is_asked (asked _ _) = true
is_asked _ = false

on_error-silent : (a : Attempt) (e : UpstreamError) → count is_asked (on_error a e) ≡ 0
unfolding on_error
on_error-silent a e = elim (Option-cases (auth_failure e)) [
  | inl p ↦ rw p (ground arith)
  | inr (_, p) ↦ rw p (ground arith)
]

abbrev calls_again : Option (List Effect × Round) → ℕ
calls_again none = 0
calls_again (some (fx, r)) = count is_asked fx

-- Of what follows from a result, only the retry makes calls.
reply-calls :
    (s : Setup) (a : Attempt) (failed idx : ℕ) (again : Option (List Effect × Round)) (x : Exec)
    → count is_asked (reply s a failed idx again x).0 ≤ calls_again again
unfolding reply
reply-calls s a failed idx again (json v) = ground arith
reply-calls s a failed idx again unconverted = ground arith
reply-calls s a failed idx again stream = ground arith
reply-calls s a failed idx none (failure e) = omega (arith, on_error-silent a e)
reply-calls s a failed idx (some (fx, r)) (failure e) =
    ground
      (arith, on_error-silent a e, count-append is_asked (on_error a e) (waited (backoff idx) ∷ fx))

-- How many calls a pass over the channel may make.
abbrev pub most_calls : Channel → ℕ
most_calls (unprepared reason) = 0
most_calls one_call = 1
most_calls (over_websocket false) = 1
most_calls (over_websocket true) = 2

calls-most_calls :
    (id : Uuid) (idx : ℕ) (c : Channel) (ws : Exec)
    → count is_asked (calls id idx c ws) ≤ most_calls c
unfolding calls falls_back
calls-most_calls id idx (unprepared reason) ws = omega arith
calls-most_calls id idx one_call ws = omega arith
calls-most_calls id idx (over_websocket true) (json v) = omega arith
calls-most_calls id idx (over_websocket true) unconverted = omega arith
calls-most_calls id idx (over_websocket true) stream = omega arith
calls-most_calls id idx (over_websocket true) (failure e) = omega arith
calls-most_calls id idx (over_websocket false) (json v) = omega arith
calls-most_calls id idx (over_websocket false) unconverted = omega arith
calls-most_calls id idx (over_websocket false) stream = omega arith
calls-most_calls id idx (over_websocket false) (failure e) = omega arith

pass-calls :
    (s : Setup) (a : Attempt) (failed idx : ℕ) (again : Option (List Effect × Round))
    → count is_asked (pass s a failed idx again).0
      ≤ most_calls (s.channel failed idx) + calls_again again
unfolding pass
pass-calls s a failed idx again =
    let c = s.channel failed idx in
    let ws = s.websocket failed idx in
    let x = exec_res c ws (s.one failed idx) in
    omega (
      arith,
      count-append is_asked (calls (up_id a) idx c ws) (reply s a failed idx again x).0,
      calls-most_calls (up_id a) idx c ws,
      reply-calls s a failed idx again x,
    )

-- The calls of one candidate, if no pass makes more than `w`.
ask-calls :
    (s : Setup) (w : ℕ) (a : Attempt) (failed idx left : ℕ)
    → ((n i : ℕ) → most_calls (s.channel n i) ≤ w)
    → count is_asked (ask s a failed idx left).0 ≤ w * suc left
unfolding ask
ask-calls s w a failed idx zero h = omega (arith, pass-calls s a failed idx none, h failed idx)
ask-calls s w a failed idx (suc left) h = grind (
  arith,
  pass-calls s a failed idx (some (ask s a failed (suc idx) left)),
  h failed idx,
  ask-calls s w a failed (suc idx) left h,
)

-- Of each candidate the first pass and the retries, each with `w` calls.
unfoldable pub allowance : ℕ → List Attempt → ℕ
allowance w [] = 0
allowance w (a ∷ rest) = w * suc (retry_limit a) + allowance w rest

all_failed-silent : (s : Setup) (p : Progress) → count is_asked (all_failed s p).0 ≡ 0
unfolding all_failed
all_failed-silent s p = ground arith

follow-calls :
    (s : Setup) (p : Progress) (a : Attempt) (later : Progress → List Effect × End) (n m : ℕ)
    (fx : List Effect) (r : Round)
    → count is_asked fx ≤ n
    → ((q : Progress) → count is_asked (later q).0 ≤ m)
    → count is_asked (follow s p a later (fx, r)).0 ≤ n + m
unfolding follow
follow-calls s p a later n m fx (finished end) h k = omega arith
follow-calls s p a later n m fx (stop e idx) h k = omega (
  arith,
  count-append is_asked fx (all_failed s (after_calls p a e idx)).0,
  all_failed-silent s (after_calls p a e idx),
)
follow-calls s p a later n m fx (next_candidate e idx) h k =
    omega
      (arith, count-append is_asked fx (later (after_calls p a e idx)).0, k (after_calls p a e idx))

candidate-calls :
    (s : Setup) (w : ℕ) (p : Progress) (a : Attempt) (later : Progress → List Effect × End) (m : ℕ)
    (built : Option ConvertError)
    → ((n i : ℕ) → most_calls (s.channel n i) ≤ w)
    → ((q : Progress) → count is_asked (later q).0 ≤ m)
    → count is_asked (candidate s p a later built).0 ≤ w * suc (retry_limit a) + m
unfolding candidate
candidate-calls s w p a later m (some (parse x)) h k =
    omega (arith, all_failed-silent s (after_convert p a (parse x)))
candidate-calls s w p a later m (some (unsupported x)) h k =
    omega (arith, k (after_convert p a (unsupported x)))
candidate-calls s w p a later m none h k =
    follow-calls s p a later (w * suc (retry_limit a)) m
      (ask s a p.failed_candidates 0 (retry_limit a)).0
      (ask s a p.failed_candidates 0 (retry_limit a)).1
      (ask-calls s w a p.failed_candidates 0 (retry_limit a) h) k

-- If each pass has a channel that allows w calls at most, where a websocket that falls back to HTTP allows two,
-- another way to an upstream one and an unprepared request none, a request makes at most w calls for the first
-- pass and for each retry of the route of each of its attempts, whatever the upstreams answer.
pub run-calls :
    (s : Setup) (w : ℕ) (attempts : List Attempt) (p : Progress)
    → ((n i : ℕ) → most_calls (s.channel n i) ≤ w)
    → count is_asked (run s attempts p).0 ≤ allowance w attempts
unfolding run allowance
run-calls s w [] p h = omega (arith, all_failed-silent s p)
run-calls s w (a ∷ rest) p h =
    candidate-calls s w p a (run s rest) (allowance w rest) (s.build p.failed_candidates a) h
      (λ q. run-calls s w rest q h)
