-- ===== src/Routing/Sticky.antt =====
-- `StickyMap` of src/routing/mod.rs: the upstream that served a key and a model last. The order of the table stands
-- for the order in which the map iterates.
pub mod Bounded
use nextapi.Base.{
  ℕ, ◌-◌, ◌*◌, String, Bool, true, false, not, Option, none, some, List, [], ◌∷◌, ltb, leb, length,
  filter, if◌then◌else◌, Table, lookup, insert, remove, ℕ_eq, String_eq, pair_eq,
}
use nextapi.Entities.{Uuid, Time, second}

abbrev pub sticky_ttl : ℕ
sticky_ttl = 600 * second

abbrev pub sticky_cap : ℕ
sticky_cap = 10000

abbrev pub StickyKey : Type 0
StickyKey = Uuid × String

abbrev pub StickyMap : Type 0
StickyMap = Table StickyKey (Uuid × Time)

-- A hit slides the time on, an expired entry is removed.
unfoldable pub sticky_get : Time → StickyKey → StickyMap → StickyMap × Option Uuid
sticky_get now k map = elim (lookup k map) [
  | none ↦ (map, none)
  | some (up, ts) ↦
      if ltb sticky_ttl (now - ts) then (remove k map, none) else (insert k (up, now) map, some up)
]

-- `max_by_key` of the elapsed time: the last of the largest.
abbrev older : Time → StickyKey × Time → Option (StickyKey × Time) → Option (StickyKey × Time)
older now (k, t) none = some (k, t)
older now (k, t) (some (j, u)) = if ltb (now - u) (now - t) then some (k, t) else some (j, u)

unfoldable pub oldest : Time → StickyMap → Option (StickyKey × Time)
oldest now [] = none
oldest now ((k, (up, t)) ∷ m) = older now (k, t) (oldest now m)

abbrev pub still_fresh : Time → StickyKey × (Uuid × Time) → Bool
still_fresh now (k, (up, t)) = leb (now - t) sticky_ttl

-- At capacity the expired go first, then, if that is not enough, the oldest.
unfoldable pub make_room : Time → StickyMap → StickyMap
unfolding oldest
make_room now map =
    if leb sticky_cap (length map)
    then (let kept = filter (still_fresh now) map in
        if leb sticky_cap (length kept)
        then elim (oldest now kept) [ none ↦ kept | some (k, t) ↦ remove k kept ]
        else kept)
    else map

unfoldable pub sticky_pin : Time → StickyKey → Uuid → StickyMap → StickyMap
unfolding make_room
sticky_pin now k up map = insert k (up, now) (make_room now map)
