-- ===== src/Gateway/Failover/Settle.antt =====
-- Every request that holds an idempotency record settles it once; and what an end says of the effects.
use nextapi.Base.{
  ℕ, zero, suc, ◌≡◌, refl, inl, inr, Bool, true, false, Option, none, some, List, [], ◌∷◌, count,
  count-append, arith, Bool-cases, Option-cases, ◌&&◌, not,
}
use nextapi.Entities.{Uuid}
use nextapi.Upstream.{UpstreamError, retryable, auth_failure}
use nextapi.Gateway.Candidates.{Attempt}
use nextapi.Gateway.Failover.{
  Setup, Channel, unprepared, one_call, over_websocket, exec_res, calls, pass, up_id, End, answered,
  streamed, exhausted, Effect, waited, idem_completed, idem_failed, Round, Exec, json, unconverted,
  stream, failure, finished, next_candidate, stop, on_error, give_up, reply, ask, run, retry_limit,
  all_failed, after_convert, after_calls, Progress, backoff, parse, unsupported, ConvertError,
  follow, candidate,
}

-- The record is closed, one way or the other.
abbrev pub settles : Effect → Bool
settles (idem_completed _ _) = true
settles (idem_failed _) = true
settles _ = false

-- How often the record must be closed by the calls of a candidate.
abbrev due : Round → ℕ
due (finished (answered _ _ _)) = 1
due (finished (streamed _ _)) = 0
due (finished (exhausted _ _ _)) = 1
due (stop _ _) = 0
due (next_candidate _ _) = 0

-- How often by a whole request: once, but not by a stream, which never holds a record.
abbrev pub due_end : End → ℕ
due_end (streamed _ _) = 0
due_end (answered _ _ _) = 1
due_end (exhausted _ _ _) = 1

on_error-silent : (a : Attempt) (e : UpstreamError) → count settles (on_error a e) ≡ 0
unfolding on_error
on_error-silent a e = elim (Option-cases (auth_failure e)) [
  | inl p ↦ rw p (ground arith)
  | inr (_, p) ↦ rw p (ground arith)
]

calls-silent :
    (id : Uuid) (idx : ℕ) (c : Channel) (ws : Exec) → count settles (calls id idx c ws) ≡ 0
unfolding calls
calls-silent id idx (unprepared reason) ws = refl
calls-silent id idx one_call ws = refl
calls-silent id idx (over_websocket auto) ws = ground arith

module _ (s : Setup) (rid : Uuid) (held : s.idem_rec ≡ some rid) where
  give_up-due : (a : Attempt) (e : UpstreamError) (idx : ℕ) → due (give_up a e idx) ≡ 0
  unfolding give_up
  give_up-due a e idx = ground arith

  reply_last :
      (a : Attempt) (failed idx : ℕ) (x : Exec)
      → count settles (reply s a failed idx none x).0 ≡ due (reply s a failed idx none x).1
  unfolding reply
  reply_last a failed idx (json v) = ground (arith, held)
  reply_last a failed idx unconverted = ground (arith, held)
  reply_last a failed idx stream = ground (arith, held)
  reply_last a failed idx (failure e) = omega (arith, on_error-silent a e, give_up-due a e idx)

  reply_again :
      (a : Attempt) (failed idx : ℕ) (fx : List Effect) (r : Round) (x : Exec)
      → count settles fx ≡ due r
      → count settles (reply s a failed idx (some (fx, r)) x).0
        ≡ due (reply s a failed idx (some (fx, r)) x).1
  unfolding reply
  reply_again a failed idx fx r (json v) h = ground (arith, held)
  reply_again a failed idx fx r unconverted h = ground (arith, held)
  reply_again a failed idx fx r stream h = ground (arith, held)
  reply_again a failed idx fx r (failure e) h =
      elim (Bool-cases
        (retryable a.candidate.route.retry_status_codes e && not a.candidate.route.lock_upstream)) [
          | inl t ↦ rw t (
              omega (
                arith,
                on_error-silent a e,
                count-append settles (on_error a e) (waited (backoff idx) ∷ fx),
              ))
          | inr t ↦ rw t (omega (arith, on_error-silent a e, give_up-due a e idx))
        ]

  pass-due :
      (a : Attempt) (failed idx : ℕ) (again : Option (List Effect × Round))
      → ((x : Exec)
          → count settles (reply s a failed idx again x).0 ≡ due (reply s a failed idx again x).1)
      → count settles (pass s a failed idx again).0 ≡ due (pass s a failed idx again).1
  unfolding pass
  pass-due a failed idx again h =
      let c = s.channel failed idx in
      let ws = s.websocket failed idx in
      let x = exec_res c ws (s.one failed idx) in
      omega (
        arith,
        count-append settles (calls (up_id a) idx c ws) (reply s a failed idx again x).0,
        calls-silent (up_id a) idx c ws,
        h x,
      )

  ask-due :
      (a : Attempt) (failed idx left : ℕ)
      → count settles (ask s a failed idx left).0 ≡ due (ask s a failed idx left).1
  unfolding ask
  ask-due a failed idx zero = pass-due a failed idx none (reply_last a failed idx)
  ask-due a failed idx (suc left) =
      let (fx, r) = ask s a failed (suc idx) left in
      pass-due a failed idx (some (fx, r))
        (λ x. reply_again a failed idx fx r x (ask-due a failed (suc idx) left))

  all_failed-due : (p : Progress) → count settles (all_failed s p).0 ≡ due_end (all_failed s p).1
  unfolding all_failed
  all_failed-due p = ground (arith, held)

  follow-due :
      (p : Progress) (a : Attempt) (later : Progress → List Effect × End) (fx : List Effect)
      (r : Round)
      → count settles fx ≡ due r
      → ((q : Progress) → count settles (later q).0 ≡ due_end (later q).1)
      → count settles (follow s p a later (fx, r)).0 ≡ due_end (follow s p a later (fx, r)).1
  unfolding follow
  follow-due p a later fx (finished (answered _ _ _)) h k = h
  follow-due p a later fx (finished (streamed _ _)) h k = h
  follow-due p a later fx (finished (exhausted _ _ _)) h k = h
  follow-due p a later fx (stop e idx) h k = omega (
    arith,
    count-append settles fx (all_failed s (after_calls p a e idx)).0,
    all_failed-due (after_calls p a e idx),
  )
  follow-due p a later fx (next_candidate e idx) h k =
      omega (
        arith,
        count-append settles fx (later (after_calls p a e idx)).0,
        k (after_calls p a e idx),
      )

  candidate-due :
      (p : Progress) (a : Attempt) (later : Progress → List Effect × End)
      (built : Option ConvertError)
      → ((q : Progress) → count settles (later q).0 ≡ due_end (later q).1)
      → count settles (candidate s p a later built).0 ≡ due_end (candidate s p a later built).1
  unfolding candidate
  candidate-due p a later (some (parse m)) k = all_failed-due (after_convert p a (parse m))
  candidate-due p a later (some (unsupported m)) k = k (after_convert p a (unsupported m))
  candidate-due p a later none k =
      let (fx, r) = ask s a p.failed_candidates 0 (retry_limit a) in
      follow-due p a later fx r (ask-due a p.failed_candidates 0 (retry_limit a)) k

  -- A request that holds an idempotency record closes it exactly once, as completed or as failed, however its calls
  -- end; only a stream does not close one.
  pub run-settles :
      (attempts : List Attempt) (p : Progress)
      → count settles (run s attempts p).0 ≡ due_end (run s attempts p).1
  unfolding run
  run-settles [] p = all_failed-due p
  run-settles (a ∷ rest) p =
      candidate-due p a (run s rest) (s.build p.failed_candidates a) (run-settles rest)
