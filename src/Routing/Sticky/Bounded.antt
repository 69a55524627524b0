-- ===== src/Routing/Sticky/Bounded.antt =====
-- The table of sticky upstreams stays within its capacity, and what was pinned is found.
use nextapi.Base.{
  ◌+◌, ◌-◌, ◌≤◌, ◌<◌, ◌≡◌, refl, inl, inr, Bool, true, none, some, [], ◌∷◌, ltb, length, count,
  filter, if◌then◌else◌, remove, ℕ_eq, String_eq, pair_eq, ◌==◌, eq_self, length-insert,
  length-remove_le, length-filter, lookup-insert_self, arith, Bool-cases, any, ◌||◌,
}
use nextapi.Entities.{Uuid, Time}
use nextapi.Routing.Sticky.{
  StickyKey, StickyMap, sticky_ttl, sticky_cap, sticky_get, sticky_pin, make_room, oldest,
  still_fresh,
}

abbrev has_key : StickyKey → StickyMap → Bool
has_key k = any (λ e. e.0 == k)

length-remove_key :
    (k : StickyKey) (m : StickyMap) → has_key k m ≡ true → length (remove k m) + 1 ≤ length m
unfolding remove
length-remove_key k [] h = cc
length-remove_key k ((j, v) ∷ m) h = elim (Bool-cases (j == k)) [
  | inl e ↦ rw e (omega (arith, length-remove_le k m))
  | inr e ↦ rw e (omega (arith, length-remove_key k m (ground (arith, e))))
]

or_right : (x y : Bool) → y ≡ true → (x || y) ≡ true
or_right x y h = ground arith

-- The oldest entry of a table with entries is one of them.
oldest-has_key :
    (now : Time) (e : StickyKey × (Uuid × Time)) (m : StickyMap)
    → (k : StickyKey) × ((t : Time) × (oldest now (e ∷ m) ≡ some (k, t))
        × (has_key k (e ∷ m) ≡ true))
unfolding oldest
oldest-has_key now (j, (up, u)) [] = (j, (u, refl, rw (eq_self j) refl))
oldest-has_key now (j, (up, u)) (d ∷ m) =
    let (k, (t, e, h)) = oldest-has_key now d m in
    elim (Bool-cases (ltb (now - t) (now - u))) [
      | inl b ↦ (j, (u, rw e (rw b refl), rw (eq_self j) refl))
      | inr b ↦ (k, (t, rw e (rw b refl), or_right (j == k) (has_key k (d ∷ m)) h))
    ]

count-le-length : (p : StickyKey × (Uuid × Time) → Bool) (m : StickyMap) → count p m ≤ length m
count-le-length p [] = omega arith
count-le-length p (e ∷ m) = ground (arith, count-le-length p m)

evicted : (now : Time) (m : StickyMap) → StickyMap
unfolding oldest
evicted now m = elim (oldest now m) [ none ↦ m | some (k, t) ↦ remove k m ]

length-evicted : (now : Time) (m : StickyMap) → 0 < length m → length (evicted now m) + 1 ≤ length m
unfolding evicted
length-evicted now [] h = absurd (omega arith)
length-evicted now (e ∷ m) h =
    let (k, (t, q, b)) = oldest-has_key now e m in rw (q, evicted) (length-remove_key k (e ∷ m) b)

length-make_room :
    (now : Time) (m : StickyMap) → length m ≤ sticky_cap → length (make_room now m) < sticky_cap
unfolding make_room evicted
length-make_room now m h =
    let kept = filter (still_fresh now) m in
    let fewer : length kept ≤ length m =
      omega (arith, length-filter (still_fresh now) m, count-le-length (still_fresh now) m) in
    ground (arith, length-evicted now kept)

-- A table within its capacity is within it after a pin; and the upstream that was pinned is found from then on, until
-- more than 600 s have passed.
pub sticky_get-sticky_pin :
    (now later : Time) (k : StickyKey) (up : Uuid) (m : StickyMap)
    → length m ≤ sticky_cap
    → (length (sticky_pin now k up m) ≤ sticky_cap)
      × ((sticky_get later k (sticky_pin now k up m)).1
          ≡ (if ltb sticky_ttl (later - now) then none else some up))
unfolding sticky_get sticky_pin
sticky_get-sticky_pin now later k up m h = (
  omega (arith, length-insert k (up, now) (make_room now m), length-make_room now m h),
  ground (arith, lookup-insert_self k (up, now) (make_room now m)),
)
