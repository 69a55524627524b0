-- ===== src/Upstream/Guard.antt =====
-- src/upstream/cred.rs: how long an upstream whose credential failed is skipped.
use nextapi.Base.{
  ◌+◌, ◌*◌, ◌≤◌, ◌<◌, ◌≡◌, ◌↔◌, Bool, true, false, none, some, lookup-insert_self,
  lookup-remove_self, ℕ_eq, arith, String_eq, lookup,
}
use nextapi.Entities.{Uuid, Time, second}
use nextapi.Upstream.{AuthFailure, AuthGuard, auth_fail_ttl_secs, blocked_at, mark, clear, blocking}

abbrev pub is_blocked : Uuid → Time → AuthGuard → Bool
is_blocked id now g = elim (blocking id now g) [ none ↦ false | some _ ↦ true ]

blocked_at_lem :
    (f : AuthFailure) (now : Time)
    → f.at ≤ now
    → (blocked_at f now ≡ true) ↔ (now < f.at + auth_fail_ttl_secs * second)
unfolding blocked_at
blocked_at_lem f now t = ground arith

lookup-mark :
    (id : Uuid) (f : AuthFailure) (g : AuthGuard)
    → (mark id f g).1 ≡ true
    → lookup id (mark id f g).0 ≡ some f
unfolding mark
lookup-mark id f g h = ground (arith, lookup-insert_self id f g)

-- A failure that was noted anew skips its upstream for less than 300 whole seconds from then on, and no longer;
-- once the mark is cleared the upstream is not skipped.
pub mark-blocks :
    (id : Uuid) (f : AuthFailure) (now : Time) (g : AuthGuard)
    → (mark id f g).1 ≡ true
    → f.at ≤ now
    → ((is_blocked id now (mark id f g).0 ≡ true) ↔ (now < f.at + auth_fail_ttl_secs * second))
      × (is_blocked id now (clear id (mark id f g).0).0 ≡ false)
unfolding blocking clear
mark-blocks id f now g h t = (
  ground (arith, lookup-mark id f g h, blocked_at_lem f now t),
  ground (arith, lookup-remove_self id (mark id f g).0),
)
