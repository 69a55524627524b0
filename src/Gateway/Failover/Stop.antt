-- ===== src/Gateway/Failover/Stop.antt =====
-- What ends a request early, and what a failed request leaves behind.
use nextapi.Base.{
  ℕ, zero, suc, ◌≡◌, refl, ap, ◌∙◌, inl, inr, Bool, true, false, Option, none, some, List, [], ◌∷◌,
  ◌++◌, count, count-append, arith, Bool-cases, Option-cases, ◌&&◌, ◌||◌, not,
}
use nextapi.Entities.{Uuid}
use nextapi.Upstream.{UpstreamError, retryable, client_causal, auth_failure}
use nextapi.Gateway.Candidates.{Attempt}
use nextapi.Gateway.Failover.{
  Setup, Channel, unprepared, one_call, over_websocket, exec_res, calls, pass, End, answered,
  streamed, exhausted, Effect, recovered, pinned, waited, idem_completed, Round, Exec, json,
  unconverted, stream, failure, finished, next_candidate, stop, on_error, give_up, reply, ask, run,
  retry_limit, all_failed, after_convert, after_calls, Progress, start, idem_fail, up_id, before,
  backoff, parse, unsupported, ConvertError, follow, candidate, by_upstream,
}

-- What only a call that was answered sets off: the breaker closes, the upstream is pinned, a response is stored.
abbrev pub is_success : Effect → Bool
is_success (recovered _) = true
is_success (pinned _) = true
is_success (idem_completed _ _) = true
is_success _ = false

abbrev served : Round → Bool
served (finished _) = true
served (stop _ _) = false
served (next_candidate _ _) = false

abbrev pub served_end : End → Bool
served_end (exhausted _ _ _) = false
served_end (answered _ _ _) = true
served_end (streamed _ _) = true

on_error-quiet : (a : Attempt) (e : UpstreamError) → count is_success (on_error a e) ≡ 0
unfolding on_error
on_error-quiet a e = elim (Option-cases (auth_failure e)) [
  | inl p ↦ rw p (ground arith)
  | inr (_, p) ↦ rw p (ground arith)
]

-- A candidate that was not answered, or ended as exhausted.
abbrev Quiet : List Effect × Round → Type 0
Quiet (fx, finished end) = served_end end ≡ true
Quiet (fx, stop e idx) = count is_success fx ≡ 0
Quiet (fx, next_candidate e idx) = count is_success fx ≡ 0

give_up-Quiet :
    (a : Attempt) (e : UpstreamError) (idx : ℕ) (fx : List Effect)
    → count is_success fx ≡ 0
    → Quiet (fx, give_up a e idx)
unfolding give_up
give_up-Quiet a e idx fx h =
    elim (Bool-cases (a.candidate.route.lock_upstream || client_causal e)) [
      | inl t ↦ rw t h
      | inr t ↦ rw t h
    ]

reply_last :
    (s : Setup) (a : Attempt) (failed idx : ℕ) (x : Exec) → Quiet (reply s a failed idx none x)
unfolding reply
reply_last s a failed idx (json v) = refl
reply_last s a failed idx unconverted = refl
reply_last s a failed idx stream = refl
reply_last s a failed idx (failure e) =
    give_up-Quiet a e idx (on_error a e) (omega (arith, on_error-quiet a e))

prefix-Quiet :
    (hs fx : List Effect) (r : Round)
    → count is_success hs ≡ 0
    → Quiet (fx, r)
    → Quiet (hs ++ fx, r)
prefix-Quiet hs fx (finished end) h q = q
prefix-Quiet hs fx (stop e idx) h q = omega (arith, count-append is_success hs fx)
prefix-Quiet hs fx (next_candidate e idx) h q = omega (arith, count-append is_success hs fx)

reply_again :
    (s : Setup) (a : Attempt) (failed idx : ℕ) (fx : List Effect) (r : Round) (x : Exec)
    → Quiet (fx, r)
    → Quiet (reply s a failed idx (some (fx, r)) x)
unfolding reply
reply_again s a failed idx fx r (json v) q = refl
reply_again s a failed idx fx r unconverted q = refl
reply_again s a failed idx fx r stream q = refl
reply_again s a failed idx fx r (failure e) q =
    elim (Bool-cases
      (retryable a.candidate.route.retry_status_codes e && not a.candidate.route.lock_upstream)) [
        | inl t ↦ rw t (
            prefix-Quiet (on_error a e) (waited (backoff idx) ∷ fx) r
              (omega (arith, on_error-quiet a e))
              (prefix-Quiet (waited (backoff idx) ∷ []) fx r refl q))
        | inr t ↦ rw t (give_up-Quiet a e idx (on_error a e) (omega (arith, on_error-quiet a e)))
      ]

calls-quiet :
    (id : Uuid) (idx : ℕ) (c : Channel) (ws : Exec) → count is_success (calls id idx c ws) ≡ 0
unfolding calls
calls-quiet id idx (unprepared reason) ws = refl
calls-quiet id idx one_call ws = refl
calls-quiet id idx (over_websocket auto) ws = ground arith

pass-Quiet :
    (s : Setup) (a : Attempt) (failed idx : ℕ) (again : Option (List Effect × Round))
    → ((x : Exec) → Quiet (reply s a failed idx again x))
    → Quiet (pass s a failed idx again)
unfolding pass
pass-Quiet s a failed idx again h =
    let c = s.channel failed idx in
    let ws = s.websocket failed idx in
    let x = exec_res c ws (s.one failed idx) in
    prefix-Quiet (calls (up_id a) idx c ws) (reply s a failed idx again x).0
      (reply s a failed idx again x).1 (calls-quiet (up_id a) idx c ws) (h x)

ask-Quiet : (s : Setup) (a : Attempt) (failed idx left : ℕ) → Quiet (ask s a failed idx left)
unfolding ask
ask-Quiet s a failed idx zero = pass-Quiet s a failed idx none (reply_last s a failed idx)
ask-Quiet s a failed idx (suc left) =
    let (fx, r) = ask s a failed (suc idx) left in
    pass-Quiet s a failed idx (some (fx, r))
      (λ x. reply_again s a failed idx fx r x (ask-Quiet s a failed (suc idx) left))

-- An end without an answer has no such effect.
abbrev QuietEnd : List Effect × End → Type 0
QuietEnd (fx, end) = served_end end ≡ false → count is_success fx ≡ 0

all_failed-quiet : (s : Setup) (p : Progress) → count is_success (all_failed s p).0 ≡ 0
unfolding all_failed
all_failed-quiet s p = ground arith

follow-Quiet :
    (s : Setup) (p : Progress) (a : Attempt) (later : Progress → List Effect × End)
    (r : List Effect × Round)
    → Quiet r
    → ((q : Progress) → QuietEnd (later q))
    → QuietEnd (follow s p a later r)
unfolding follow
follow-Quiet s p a later (fx, finished end) h k = λ f. absurd (ground arith)
follow-Quiet s p a later (fx, stop e idx) h k = λ f. omega (
  arith,
  count-append is_success fx (all_failed s (after_calls p a e idx)).0,
  all_failed-quiet s (after_calls p a e idx),
)
follow-Quiet s p a later (fx, next_candidate e idx) h k = λ f. omega (
  arith,
  count-append is_success fx (later (after_calls p a e idx)).0,
  k (after_calls p a e idx) f,
)

candidate-quiet :
    (s : Setup) (p : Progress) (a : Attempt) (later : Progress → List Effect × End)
    (built : Option ConvertError)
    → ((q : Progress) → QuietEnd (later q))
    → QuietEnd (candidate s p a later built)
unfolding candidate
candidate-quiet s p a later (some (parse m)) k =
    λ f. all_failed-quiet s (after_convert p a (parse m))
candidate-quiet s p a later (some (unsupported m)) k = k (after_convert p a (unsupported m))
candidate-quiet s p a later none k =
    follow-Quiet s p a later (ask s a p.failed_candidates 0 (retry_limit a))
      (ask-Quiet s a p.failed_candidates 0 (retry_limit a)) k

-- A request that ends without an answer closed no breaker, pinned no upstream and stored no response.
pub run-quiet :
    (s : Setup) (attempts : List Attempt) (p : Progress)
    → served_end (run s attempts p).1 ≡ false
    → count is_success (run s attempts p).0 ≡ 0
unfolding run
run-quiet s [] p = λ f. all_failed-quiet s p
run-quiet s (a ∷ rest) p =
    candidate-quiet s p a (run s rest) (s.build p.failed_candidates a) (run-quiet s rest)

-- An error that no other call can mend: the route is locked to its upstream, or the request itself is at fault.
abbrev pub is_final : Attempt → UpstreamError → Bool
is_final a e =
    a.candidate.route.lock_upstream
    || not (retryable a.candidate.route.retry_status_codes e) && client_causal e

reply_final :
    (s : Setup) (a : Attempt) (failed idx : ℕ) (again : Option (List Effect × Round))
    (e : UpstreamError)
    → is_final a e ≡ true
    → reply s a failed idx again (failure e) ≡ (on_error a e, stop e idx)
unfolding reply give_up
reply_final s a failed idx none e h = ground arith
reply_final s a failed idx (some (fx, r)) e h = ground arith

-- What the first pass of a candidate gives.
abbrev pub first_pass : Setup → (failed : ℕ) → Exec
first_pass s failed = exec_res (s.channel failed 0) (s.websocket failed 0) (s.one failed 0)

abbrev pub first_calls : Setup → Attempt → (failed : ℕ) → List Effect
first_calls s a failed = calls (up_id a) 0 (s.channel failed 0) (s.websocket failed 0)

ask_final :
    (s : Setup) (a : Attempt) (failed left : ℕ) (e : UpstreamError)
    → first_pass s failed ≡ failure e
    → is_final a e ≡ true
    → ask s a failed 0 left ≡ (first_calls s a failed ++ on_error a e, stop e 0)
unfolding ask pass
ask_final s a failed zero e f h =
    ap (λ x. before (first_calls s a failed) (reply s a failed 0 none x)) f
    ∙ ap (before (first_calls s a failed)) (reply_final s a failed 0 none e h)
ask_final s a failed (suc left) e f h =
    let again = some (ask s a failed 1 left) in
    ap (λ x. before (first_calls s a failed) (reply s a failed 0 again x)) f
    ∙ ap (before (first_calls s a failed)) (reply_final s a failed 0 again e h)

-- If the first upstream's first pass fails with such an error, its calls are the only ones of the request, whatever
-- attempts are left: the request ends with that error, without a retry.
pub run-stops :
    (s : Setup) (a : Attempt) (rest : List Attempt) (e : UpstreamError)
    → s.build 0 a ≡ none
    → first_pass s 0 ≡ failure e
    → is_final a e ≡ true
    → run s (a ∷ rest) start ≡ (
      (first_calls s a 0 ++ on_error a e) ++ idem_fail s,
      exhausted (some (by_upstream e)) (some (up_id a)) 0,
    )
unfolding run candidate follow all_failed after_calls
run-stops s a rest e b f h = rw b (rw (ask_final s a 0 (retry_limit a) e f h) refl)
