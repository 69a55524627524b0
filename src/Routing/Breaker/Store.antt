-- ===== src/Routing/Breaker/Store.antt =====
-- What the breaker writes to the table `upstreams`, and what it reads of it after a restart.
use nextapi.Base.{
  ℕ, pos, ◌<◌, ◌≡◌, refl, ap, Bool, true, false, Option, none, some, String, [], ◌∷◌, arith, ℕ_eq,
  eq_self, insert, lt→ltb, lookup, lookup-insert_self, at_least_one, ltb, if◌then◌else◌,
}
use text.Mathlib.Text.{◌==◌ as is_text}
use text.Mathlib.TextEquality.{eq_iff}
use nextapi.Entities.{Time, UpstreamRow}
use nextapi.Routing.Breaker.{
  Breaker, BreakerState, half_open, closed, open_until, allow, or_insert, is_manual, is_auto,
  DbUpdate, recovered, opened, failures_only, on_failure, db_update, next_on_failure,
  state_or_closed,
}

-- The three UPDATE statements with their WHERE conditions, on the row they name.
unfoldable pub update_row : DbUpdate → UpstreamRow → UpstreamRow
update_row recovered up =
    if is_auto up
    then record up { disabled_by = none; cooldown_until = none; consecutive_failures = pos 0 }
    else up
update_row (opened until failures) up = if is_manual up then up else record up {
  disabled_by = some "auto";
  cooldown_until = some until;
  consecutive_failures = pos failures;
}
update_row (failures_only failures) up =
    if is_manual up then up else record up { consecutive_failures = failures }

abbrev is_open : BreakerState → Bool
is_open (open_until _ _) = true
is_open _ = false

abbrev writes : Option DbUpdate → Bool
writes none = false
writes (some w) = true

-- The assertion in `on_failure`: there is something to write exactly if the breaker is open now.
pub write_iff_open :
    (up : UpstreamRow) (threshold : ℕ) (s : BreakerState) (now : Time)
    → writes (db_update up threshold s (next_on_failure s threshold now).0)
      ≡ is_open (next_on_failure s threshold now).0
unfolding db_update next_on_failure
write_iff_open up threshold (closed f) now = ground arith
write_iff_open up threshold (open_until u k) now = refl
write_iff_open up threshold (half_open k) now = refl

manual_not_auto : (up : UpstreamRow) → is_manual up ≡ true → is_auto up ≡ false
manual_not_auto up h = go up.disabled_by h
  where
    go :
        (who : Option String)
        → elim who [ none ↦ false | some s ↦ is_text s "manual" ] ≡ true
        → elim who [ none ↦ false | some s ↦ is_text s "auto" ] ≡ false
    go none q = refl
    go (some s) q = rw ((eq_iff s "manual").0 q)

-- No write of the breaker touches a row that an administrator has disabled.
pub manual_kept : (w : DbUpdate) (up : UpstreamRow) → is_manual up ≡ true → update_row w up ≡ up
unfolding update_row
manual_kept recovered up h = rw (manual_not_auto up h)
manual_kept (opened u f) up h = rw h
manual_kept (failures_only f) up h = rw h

abbrev pub after_restart : Breaker
after_restart = record { states = []; halfopen_since = [] }

opened_deadline :
    (up : UpstreamRow) (threshold : ℕ) (s next : BreakerState) (until failures : ℕ)
    → db_update up threshold s next ≡ some (opened until failures)
    → (k : ℕ) × (next ≡ open_until until k)
unfolding db_update
opened_deadline up t (closed f) (open_until u k) until failures h = (k, cc)
opened_deadline up t (half_open f) (open_until u k) until failures h = (k, cc)
opened_deadline up t (open_until v j) (open_until u k) until failures h = absurd (cc)
opened_deadline up t s next until failures h = absurd (cc)

memory_deadline :
    (up : UpstreamRow) (b : Breaker) (now until failures : ℕ)
    → is_manual up ≡ false
    → (on_failure up true now b).1 ≡ some (opened until failures)
    → (k : ℕ) × (lookup up.id (on_failure up true now b).0.states ≡ some (open_until until k))
unfolding on_failure
memory_deadline up b now until failures m w =
    let (k, e) =
      opened_deadline up _ (state_or_closed (lookup up.id b.states)) _ until failures (rw m at w) in
    (k, rw m (rw lookup-insert_self (ap some e)))

abbrev opened_row : UpstreamRow → ℕ → ℕ → UpstreamRow
opened_row up until failures = record up {
  disabled_by = some "auto";
  cooldown_until = some until;
  consecutive_failures = pos failures;
}

restarted_opened :
    (up : UpstreamRow) (later until failures : ℕ)
    → up.enabled ≡ true
    → later < until
    → allow (opened_row up until failures) true later after_restart ≡ (
      record {
        states = (up.id, open_until until (at_least_one (pos failures))) ∷ [];
        halfopen_since = [];
      },
      false,
    )
unfolding allow or_insert lookup insert
restarted_opened up later until failures e h =
    let soon : ltb later until ≡ true = lt→ltb later until h in rw (e, soon) refl

restarted :
    (up : UpstreamRow) (later until failures : ℕ)
    → is_manual up ≡ false
    → up.enabled ≡ true
    → later < until
    → allow (update_row (opened until failures) up) true later after_restart ≡ (
      record {
        states = (up.id, open_until until (at_least_one (pos failures))) ∷ [];
        halfopen_since = [];
      },
      false,
    )
unfolding update_row
restarted up later until failures m e h = rw m (restarted_opened up later until failures e h)

-- A failure that writes an opening survives a restart, of an upstream that is enabled and not disabled by hand: the
-- memory is open until the deadline of the write; and once the write is in the row, a breaker with an empty memory
-- refuses the upstream before that deadline, and then is open until it.
pub restart_refuses :
    (up : UpstreamRow) (b : Breaker) (now later until failures : ℕ)
    → is_manual up ≡ false
    → up.enabled ≡ true
    → (on_failure up true now b).1 ≡ some (opened until failures)
    → later < until
    → ((k : ℕ) × (lookup up.id (on_failure up true now b).0.states ≡ some (open_until until k)))
      × ((allow (update_row (opened until failures) up) true later after_restart).1 ≡ false)
      × ((k : ℕ) × (lookup up.id
              (allow (update_row (opened until failures) up) true later after_restart).0.states
            ≡ some (open_until until k)))
unfolding lookup
restart_refuses up b now later until failures m e w h =
    let r : allow (update_row (opened until failures) up) true later after_restart ≡ _ =
      restarted up later until failures m e h in
    (
      memory_deadline up b now until failures m w,
      rw r,
      (at_least_one (pos failures), rw (r, eq_self up.id)),
    )
