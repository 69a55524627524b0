-- ===== src/Gateway/Failover.antt =====
-- src/gateway.rs: the loops of `run_gateway` over attempts and retries, from the attempts to the answer.
-- The world outside is a parameter: what building a request gives, how an upstream is reached and what
-- its calls give, asked by the number of candidates that failed before and the number of retries, which no two
-- calls of a request share. What the loops do to the rest of the program is a list of effects, in their order; the
-- log and the metrics are left out.
pub mod Bounds
pub mod Settle
pub mod Stop
use Prim.Native.Nat.{min}
use nextapi.Base.{
  ℕ, zero, suc, ℤ, pos_part, ◌+◌, ◌-◌, ◌*◌, ◌^◌, Bool, true, false, not, ◌&&◌, ◌||◌, String, Option,
  none, some, List, [], ◌∷◌, ◌++◌, if◌then◌else◌, eqb,
}
use nextapi.Base.Json.{Value}
use nextapi.Entities.{Uuid, ModelRouteRow}
pub use nextapi.Protocol.Ir.{ConvertError, parse, unsupported}
use nextapi.Upstream.{UpstreamError, connect, retryable, client_causal, auth_failure}
use nextapi.Gateway.Candidates.{Attempt}

-- An upstream's call: an answer that `nonstream_success` turned into JSON (status 200), one that it could not
-- convert (status 502), a stream, or an error.
pub data Exec : Type 0 where
  json : Value → Exec
  unconverted : Exec
  stream : Exec
  failure : UpstreamError → Exec

-- How an upstream is reached: not at all, when its credential or its request could not be prepared; by one call, over
-- HTTP or of Devin; or over the websocket of Codex, where `auto` is the transport that falls back to HTTP.
pub data Channel : Type 0 where
  unprepared : (reason : String) → Channel
  one_call : Channel
  over_websocket : (auto : Bool) → Channel

pub data Fail : Type 0 where
  by_upstream : UpstreamError → Fail
  by_convert : ConvertError → Fail

-- `asked` is a call of an upstream, `recovered` is the breaker's `on_success` and the cleared mark of the credential, `tripped` its `on_failure`,
-- `credential_failed` is `note_auth_failure`.
pub data Effect : Type 0 where
  asked : Uuid → (retry : ℕ) → Effect
  recovered : Uuid → Effect
  tripped : Uuid → Effect
  credential_failed : Uuid → Effect
  pinned : Uuid → Effect
  waited : (millis : ℕ) → Effect
  idem_completed : Uuid → Value → Effect
  idem_failed : Uuid → Effect

pub data End : Type 0 where
  answered : (upstream : Uuid) (status retry_count : ℕ) → End
  streamed : (upstream : Uuid) (retry_count : ℕ) → End
  exhausted : Option Fail → Option Uuid → (retry_count : ℕ) → End

pub record Setup : Type 0 where
  pub build : ℕ → Attempt → Option ConvertError
  pub channel : ℕ → ℕ → Channel
  pub websocket : ℕ → ℕ → Exec
  pub one : ℕ → ℕ → Exec
  pub sticky_routing : Bool
  pub idem_rec : Option Uuid

-- What the loop over candidates carries along.
pub record Progress : Type 0 where
  pub failed_candidates : ℕ
  pub last_idx : ℕ
  pub last_err : Option Fail
  pub last_upstream : Option Uuid

-- How the retries of one candidate end.
pub data Round : Type 0 where
  finished : End → Round
  next_candidate : UpstreamError → (idx : ℕ) → Round
  stop : UpstreamError → (idx : ℕ) → Round

abbrev pub up_id : Attempt → Uuid
up_id a = a.candidate.upstream.id

unfoldable pub retry_limit : Attempt → ℕ
retry_limit a = if a.candidate.route.lock_upstream then 0 else pos_part a.candidate.route.retries

-- The delay before retry `idx + 1`.
unfoldable pub backoff : ℕ → ℕ
backoff idx = 100 * 2 ^ min idx 30

abbrev pub pin_effect : Setup → Attempt → List Effect
pin_effect s a = if s.sticky_routing then pinned (up_id a) ∷ [] else []

abbrev pub idem_fail : Setup → List Effect
idem_fail s = elim s.idem_rec [ none ↦ [] | some rid ↦ idem_failed rid ∷ [] ]

abbrev pub idem_complete : Setup → Value → List Effect
idem_complete s v = elim s.idem_rec [ none ↦ [] | some rid ↦ idem_completed rid v ∷ [] ]

-- A failed websocket gives way to HTTP, in the same pass.
unfoldable pub falls_back : Bool → Exec → Bool
falls_back auto (failure e) = auto
falls_back auto (json v) = false
falls_back auto unconverted = false
falls_back auto stream = false

-- The result of one pass, by the channel: `ws` is what the websocket gives, `one` what the other call gives.
unfoldable pub exec_res : Channel → (ws one : Exec) → Exec
unfolding falls_back
exec_res (unprepared reason) ws one = failure (connect reason)
exec_res one_call ws one = one
exec_res (over_websocket auto) ws one = if falls_back auto ws then one else ws

-- The calls of one pass.
unfoldable pub calls : Uuid → (retry : ℕ) → Channel → (ws : Exec) → List Effect
unfolding falls_back
calls id idx (unprepared reason) ws = []
calls id idx one_call ws = asked id idx ∷ []
calls id idx (over_websocket auto) ws =
    asked id idx ∷ (if falls_back auto ws then asked id idx ∷ [] else [])

-- What every error of a call sets off.
unfoldable pub on_error : Attempt → UpstreamError → List Effect
on_error a e =
    (elim (auth_failure e) [ none ↦ [] | some _ ↦ credential_failed (up_id a) ∷ [] ])
    ++ (if retryable a.candidate.route.retry_status_codes e then tripped (up_id a) ∷ [] else [])

-- After the last call of a candidate.
unfoldable pub give_up : Attempt → UpstreamError → ℕ → Round
give_up a e idx =
    if a.candidate.route.lock_upstream || client_causal e then stop e idx else next_candidate e idx

-- What follows from the result of a pass. `again` is what a retry would give, `none` at the limit.
unfoldable pub reply :
    Setup → Attempt → ℕ → ℕ → Option (List Effect × Round) → Exec → List Effect × Round
unfolding on_error give_up backoff
reply s a failed idx again (json v) = (
  recovered (up_id a) ∷ pin_effect s a ++ idem_complete s v,
  finished (answered (up_id a) 200 (idx + failed)),
)
reply s a failed idx again unconverted = (
  recovered (up_id a) ∷ pin_effect s a ++ idem_fail s,
  finished (answered (up_id a) 502 (idx + failed)),
)
reply s a failed idx again stream =
    (recovered (up_id a) ∷ pin_effect s a, finished (streamed (up_id a) (idx + failed)))
reply s a failed idx none (failure e) = (on_error a e, give_up a e idx)
reply s a failed idx (some (fx, r)) (failure e) =
    if retryable a.candidate.route.retry_status_codes e && not a.candidate.route.lock_upstream
    then (on_error a e ++ waited (backoff idx) ∷ fx, r)
    else (on_error a e, give_up a e idx)

abbrev pub before : List Effect → List Effect × Round → List Effect × Round
before gx (fx, r) = (gx ++ fx, r)

-- One pass of the loop: the calls and what follows from their result.
unfoldable pub pass : Setup → Attempt → ℕ → ℕ → Option (List Effect × Round) → List Effect × Round
unfolding reply exec_res calls
pass s a failed idx again =
    let c = s.channel failed idx in
    let ws = s.websocket failed idx in
    before (calls (up_id a) idx c ws)
      (reply s a failed idx again (exec_res c ws (s.one failed idx)))

-- The loop of retries: `left` is what `idx` lacks to the limit.
unfoldable pub ask : Setup → Attempt → ℕ → ℕ → ℕ → List Effect × Round
unfolding pass
ask s a failed idx zero = pass s a failed idx none
ask s a failed idx (suc left) = pass s a failed idx (some (ask s a failed (suc idx) left))

-- The end when no candidate answered.
unfoldable pub all_failed : Setup → Progress → List Effect × End
all_failed s p =
    (idem_fail s, exhausted p.last_err p.last_upstream (p.last_idx + (p.failed_candidates - 1)))

unfoldable pub after_convert : Progress → Attempt → ConvertError → Progress
after_convert p a c = record {
  failed_candidates = suc p.failed_candidates;
  last_idx = 0;
  last_err = some (by_convert c);
  last_upstream = some (up_id a);
}

unfoldable pub after_calls : Progress → Attempt → UpstreamError → ℕ → Progress
after_calls p a e idx = record {
  failed_candidates = suc p.failed_candidates;
  last_idx = idx;
  last_err = some (by_upstream e);
  last_upstream = some (up_id a);
}

-- After the calls of a candidate; `later` is what the other candidates would give.
unfoldable pub follow :
    Setup
    → Progress
    → Attempt
    → (Progress → List Effect × End)
    → List Effect × Round
    → List Effect × End
unfolding all_failed after_calls
follow s p a later (fx, finished end) = (fx, end)
follow s p a later (fx, stop e idx) =
    let (gx, end) = all_failed s (after_calls p a e idx) in (fx ++ gx, end)
follow s p a later (fx, next_candidate e idx) =
    let (gx, end) = later (after_calls p a e idx) in (fx ++ gx, end)

-- One candidate, by what building its request gave.
unfoldable pub candidate :
    Setup
    → Progress
    → Attempt
    → (Progress → List Effect × End)
    → Option ConvertError
    → List Effect × End
unfolding ask all_failed after_convert retry_limit follow
candidate s p a later (some (parse m)) = all_failed s (after_convert p a (parse m))
candidate s p a later (some (unsupported m)) = later (after_convert p a (unsupported m))
candidate s p a later none = follow s p a later (ask s a p.failed_candidates 0 (retry_limit a))

-- The loop over candidates.
unfoldable pub run : Setup → List Attempt → Progress → List Effect × End
unfolding candidate all_failed
run s [] p = all_failed s p
run s (a ∷ rest) p = candidate s p a (run s rest) (s.build p.failed_candidates a)

abbrev pub start : Progress
start = record { failed_candidates = 0; last_idx = 0; last_err = none; last_upstream = none }
