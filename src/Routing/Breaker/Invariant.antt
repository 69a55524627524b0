-- ===== src/Routing/Breaker/Invariant.antt =====
-- A half-open state always has a clock, so that a lost probe cannot block it for ever.
use nextapi.Base.{
  ℕ, ◌≡◌, refl, Bool, false, Option, none, some, List, [], ◌∷◌, arith, Bool-cases, Option-cases,
  ltb, inl, inr, ◌≢◌, ◌||◌, not, at_least_one, Table, ◌==◌, ℕ_eq, insert, remove, lookup,
  lookup-insert, lookup-remove,
}
use nextapi.Entities.{Uuid, Time, UpstreamRow}
use nextapi.Routing.Breaker.{
  Breaker, BreakerState, half_open, closed, open_until, allow, allow_state, or_insert, on_success,
  on_failure, leave_halfopen, next_on_failure, state_or_closed, reset, stuck, is_manual,
  row_cooldown,
}

abbrev Clocked : Table Uuid BreakerState → Table Uuid Time → Type 0
Clocked states clocks =
    (j n : ℕ)
    → lookup j states ≡ some (half_open n)
    → (since : Time) × (lookup j clocks ≡ some since)

pub record IsTimed (b : Breaker) : Type 0 where
  pub clock : Clocked b.states b.halfopen_since

module _ (id : Uuid) (states : Table Uuid BreakerState) (clocks : Table Uuid Time) where
  -- A new state that is not half-open, while the other clocks stay.
  settle :
      (x : BreakerState) (clocks' : Table Uuid Time)
      → ((n : ℕ) → x ≢ half_open n)
      → ((j : Uuid) → (id == j) ≡ false → lookup j clocks' ≡ lookup j clocks)
      → Clocked states clocks
      → Clocked (insert id x states) clocks'
  settle x clocks' ne same h j n = elim (Bool-cases (id == j)) [
    | inl e ↦ simp (lookup-insert, e) (λ q. absurd (ne n (cc)))
    | inr e ↦ simp (lookup-insert, e) (λ q. rw (same j e) (h j n q))
  ]

  probe :
      (k : ℕ) (now : Time)
      → Clocked states clocks
      → Clocked (insert id (half_open k) states) (insert id now clocks)
  probe k now h j n = elim (Bool-cases (id == j)) [
    | inl e ↦ simp (lookup-insert, e) (λ q. (now, refl))
    | inr e ↦ simp (lookup-insert, e) (h j n)
  ]

  rewind : (now : Time) → Clocked states clocks → Clocked states (insert id now clocks)
  rewind now h j n q = elim (Bool-cases (id == j)) [
    | inl e ↦ simp (lookup-insert, e) (now, refl)
    | inr e ↦ simp (lookup-insert, e) (h j n q)
  ]

  forget : Clocked states clocks → Clocked (remove id states) (remove id clocks)
  forget h j n = elim (Bool-cases (id == j)) [
    | inl e ↦ simp (lookup-remove, e) (λ q. cc)
    | inr e ↦ simp (lookup-remove, e) (h j n)
  ]

reset-IsTimed : (id : Uuid) (b : Breaker) → IsTimed b → IsTimed (reset id b)
unfolding reset
reset-IsTimed id b h = record { clock = forget id b.states b.halfopen_since h.clock }

on_success-IsTimed : (up : UpstreamRow) (b : Breaker) → IsTimed b → IsTimed (on_success up b).0
unfolding on_success
on_success-IsTimed up b h = record {
  clock =
      settle up.id b.states b.halfopen_since (closed 0) (remove up.id b.halfopen_since) (λ n. cc)
        (λ j e. rw (lookup-remove, e)) h.clock;
}

allow_state-IsTimed :
    (s : Option BreakerState) (id : Uuid) (now : Time) (b : Breaker)
    → IsTimed b
    → IsTimed (allow_state s id now b).0
unfolding allow_state
allow_state-IsTimed none id now b h = record {
  clock =
      settle id b.states b.halfopen_since (closed 0) b.halfopen_since (λ n. cc) (λ j e. refl)
        h.clock;
}
allow_state-IsTimed (some (closed f)) id now b h = h
allow_state-IsTimed (some (open_until u k)) id now b h = elim (Bool-cases (ltb now u)) [
  | inl e ↦ rw e h
  | inr e ↦ rw e (record { clock = probe id b.states b.halfopen_since k now h.clock })
]
allow_state-IsTimed (some (half_open k)) id now b h =
    elim (Bool-cases (stuck (lookup id b.halfopen_since) now)) [
      | inl e ↦ rw e (record { clock = rewind id b.states b.halfopen_since now h.clock })
      | inr e ↦ rw e h
    ]

or_insert-IsTimed :
    (id : Uuid) (u k : ℕ) (b : Breaker)
    → IsTimed b
    → IsTimed (record b { states = or_insert id (open_until u k) b.states })
unfolding or_insert
or_insert-IsTimed id u k b h = elim (Option-cases (lookup id b.states)) [
  | inl e ↦
      rw (e, or_insert)
        (record {
          clock =
              settle id b.states b.halfopen_since (open_until u k) b.halfopen_since (λ n. cc)
                (λ j q. refl) h.clock;
        })
  | inr (s, e) ↦ rw (e, or_insert) h
]

pub allow-IsTimed :
    (up : UpstreamRow) (auto_disable : Bool) (now : Time) (b : Breaker)
    → IsTimed b
    → IsTimed (allow up auto_disable now b).0
unfolding allow
allow-IsTimed up auto_disable now b h = elim (Bool-cases (not up.enabled || is_manual up)) [
  | inl e ↦ rw e h
  | inr e ↦ rw e (elim (Bool-cases auto_disable) [
    | inr e' ↦ rw e' (reset-IsTimed up.id b h)
    | inl e' ↦ rw e' (elim (Option-cases (row_cooldown up now)) [
      | inl c ↦ rw c (allow_state-IsTimed (lookup up.id b.states) up.id now b h)
      | inr (t, c) ↦ rw c (or_insert-IsTimed up.id t (at_least_one up.consecutive_failures) b h)
    ])
  ])
]

-- A failure never leads into the half-open state.
next-ne-half_open :
    (s : BreakerState) (threshold : ℕ) (now : Time) (n : ℕ)
    → (next_on_failure s threshold now).0 ≢ half_open n
unfolding next_on_failure
next-ne-half_open (closed f) threshold now n h = ground arith
next-ne-half_open (open_until u k) threshold now n h = cc
next-ne-half_open (half_open k) threshold now n h = cc

lookup-leave_ne :
    (s next : BreakerState) (id j : Uuid) (since : Table Uuid Time)
    → (id == j) ≡ false
    → lookup j (leave_halfopen s next id since) ≡ lookup j since
unfolding leave_halfopen
lookup-leave_ne (half_open _) (half_open _) id j since h = refl
lookup-leave_ne (half_open _) (closed _) id j since h = rw (lookup-remove, h)
lookup-leave_ne (half_open _) (open_until _ _) id j since h = rw (lookup-remove, h)
lookup-leave_ne (closed _) next id j since h = refl
lookup-leave_ne (open_until _ _) next id j since h = refl

on_failure-IsTimed :
    (up : UpstreamRow) (auto_disable : Bool) (now : Time) (b : Breaker)
    → IsTimed b
    → IsTimed (on_failure up auto_disable now b).0
unfolding on_failure
on_failure-IsTimed up auto_disable now b h = elim (Bool-cases (is_manual up || not auto_disable)) [
  | inl e ↦ rw e h
  | inr e ↦ rw e (record {
    clock =
        settle up.id b.states b.halfopen_since _ _ (next-ne-half_open _ _ now)
          (λ j q.
            lookup-leave_ne (state_or_closed (lookup up.id b.states)) _ up.id j b.halfopen_since q)
          h.clock;
  })
]

-- What can happen to the breaker: a request asks, an attempt succeeds or fails, an administrator
-- resets.
pub data Event : Type 0 where
  ask : UpstreamRow → Bool → Time → Event
  succeed : UpstreamRow → Event
  fail : UpstreamRow → Bool → Time → Event
  clear : Uuid → Event

unfoldable pub act : Event → Breaker → Breaker
act (ask up auto now) b = (allow up auto now b).0
act (succeed up) b = (on_success up b).0
act (fail up auto now) b = (on_failure up auto now b).0
act (clear id) b = reset id b

unfoldable pub history : List Event → Breaker
history [] = record { states = []; halfopen_since = [] }
history (e ∷ es) = act e (history es)

-- After any events, in any order and on any rows, every half-open state has the clock of its
-- probe.
pub history-IsTimed : (es : List Event) → IsTimed (history es)
unfolding history act
history-IsTimed [] = record { clock = λ j n h. unfold lookup in cc }
history-IsTimed (ask up auto now ∷ es) = allow-IsTimed up auto now _ (history-IsTimed es)
history-IsTimed (succeed up ∷ es) = on_success-IsTimed up _ (history-IsTimed es)
history-IsTimed (fail up auto now ∷ es) = on_failure-IsTimed up auto now _ (history-IsTimed es)
history-IsTimed (clear id ∷ es) = reset-IsTimed id _ (history-IsTimed es)
