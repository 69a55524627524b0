-- ===== src/Limit.antt =====
-- src/limit/mod.rs: sliding windows of requests, the check of one request's tokens, quotas.
-- Instants are nanoseconds; `duration_since` stops at zero, as `-` does on ℕ.
pub mod Window
pub mod Status
pub mod Quota
use nextapi.Base.{
  ℕ, ℤ, pos, negsuc, ◌+◌, ◌-◌, ◌*◌, ◌%◌, ◌^◌, Bool, true, false, Option, none, some, List, [], ◌∷◌,
  ◌++◌, ltb, leb, eqb, length, count, if◌then◌else◌, Table, lookup, insert, remove, ℕ_eq,
}
use nextapi.Entities.{Uuid, Time, second, ApiKeyRow}
use nextapi.ApiError.{Result, ok, err, rate_limited}

-- Oldest first.
abbrev pub Queue : Type 0
Queue = List Time

abbrev pub rpm_window : ℕ
rpm_window = 60 * second

-- The loop that pops what is older than the window.
unfoldable pub drop_expired : Time → ℕ → Queue → Queue
drop_expired now window [] = []
drop_expired now window (t ∷ q) =
    let rest = drop_expired now window q in if ltb window (now - t) then rest else t ∷ q

-- The length is cast to a `u32`.
unfoldable pub window_allow : Queue → Time → ℕ → ℕ → Queue × Bool
window_allow queue now limit window =
    if eqb limit 0
    then (queue, true)
    else (let kept = drop_expired now window queue in
        if leb limit (length kept % 2 ^ 32) then (kept, false) else (kept ++ (now ∷ []), true))

-- The limit of a key in force; `none` for no limit. A positive `i32` fits a `u32`.
unfoldable pub effective_limit : ApiKeyRow → ℕ → Option ℕ
effective_limit key default_rpm = elim key.rpm [
  | some (pos r) ↦ if eqb r 0 then none else some r
  | some (negsuc _) ↦ none
  | none ↦ if eqb default_rpm 0 then none else some default_rpm
]

abbrev pub Windows : Type 0
Windows = Table Uuid Queue

abbrev pub queue_of : Uuid → Windows → Queue
queue_of id map = elim (lookup id map) [ none ↦ [] | some q ↦ q ]

unfoldable pub check_rpm : ApiKeyRow → ℕ → Time → Windows → Windows × Result (Unit {0})
check_rpm key default_rpm now map = elim (effective_limit key default_rpm) [
  | none ↦ (map, ok tt)
  | some limit ↦
      let (queue, allowed) = window_allow (queue_of key.id map) now limit rpm_window in
      (insert key.id queue map, if allowed then ok tt else err rate_limited)
]

-- The limit and what remains of it; a reading, which changes nothing.
unfoldable pub rpm_status : ApiKeyRow → ℕ → Time → Windows → Option (ℕ × ℕ)
rpm_status key default_rpm now map = elim (effective_limit key default_rpm) [
  | none ↦ none
  | some limit ↦
      let used = count (λ t. ltb (now - t) rpm_window) (queue_of key.id map) % 2 ^ 32 in
      some (limit, limit - used)
]

unfoldable pub remove_key : Uuid → Windows → Windows
remove_key id map = remove id map

-- One request's `max_tokens` against the key's tokens per minute.
unfoldable pub tpm_precheck : ApiKeyRow → Option ℕ → Result (Unit {0})
tpm_precheck key max_tokens = elim key.tpm [
  | none ↦ ok tt
  | some (negsuc _) ↦ ok tt
  | some (pos t) ↦
      if eqb t 0
      then ok tt
      else elim max_tokens [ none ↦ ok tt | some m ↦ if ltb t m then err rate_limited else ok tt ]
]
