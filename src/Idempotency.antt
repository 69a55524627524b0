-- ===== src/Idempotency.antt =====
-- src/idempotency.rs: the table of idempotency keys and the statements on it.
-- A table has one row for a pair of API key and idempotency key (its unique index). A statement
-- runs at one instant; ids of new rows are given. Errors of the database are not modelled.
pub mod Sessions
use nextapi.Base.{
  ℕ, zero, suc, ℤ, pos, ◌+◌, ◌*◌, ◌≡◌, refl, Bool, true, false, not, String, Option, none, some,
  List, [], ◌∷◌, ltb, if◌then◌else◌, Table, lookup, insert, filter, ◌==◌, ℕ_eq, String_eq, pair_eq,
  Bool-cases,
}
use nextapi.Base.Json.{Value, null}
use nextapi.Entities.{Uuid, Time, second}

abbrev pub ttl : ℕ
ttl = 24 * 3600 * second

pub record Row : Type 0 where
  pub id : Uuid
  pub fingerprint : String
  pub status : String
  pub response : Option Value
  pub response_status : Option ℤ
  pub task_id : Option Uuid
  pub expires_at : Time

abbrev pub RowKey : Type 0
RowKey = Uuid × String

abbrev pub Store : Type 0
Store = Table RowKey Row

pub data Begin : Type 0 where
  proceed : Uuid → Begin
  replay : ℤ → Value → Begin
  conflict : String → Begin

abbrev pub mismatch : Begin
mismatch = conflict "同一幂等键的请求参数不一致"

abbrev pub in_progress : Begin
in_progress = conflict "相同幂等键的请求正在处理中"

-- `UPDATE … WHERE id = $1`.
unfoldable pub update : (Row → Row) → Uuid → Store → Store
update f rid [] = []
update f rid ((k, r) ∷ s) = let rest = update f rid s in (k, if r.id == rid then f r else r) ∷ rest

-- `SELECT … WHERE key_id = $1 AND idem_key = $2 AND expires_at > now()`.
unfoldable pub select : Time → RowKey → Store → Option Row
select now k s = elim (lookup k s) [
  | none ↦ none
  | some r ↦ if ltb now r.expires_at then some r else none
]

abbrev pub taken_over : Time → Row → Row
taken_over now r = record {
  id = r.id;
  fingerprint = r.fingerprint;
  status = "processing";
  response = none;
  response_status = none;
  task_id = none;
  expires_at = now + ttl;
}

abbrev pub new_row : Time → String → Uuid → Row
new_row now fp fresh = record {
  id = fresh;
  fingerprint = fp;
  status = "processing";
  response = none;
  response_status = none;
  task_id = none;
  expires_at = now + ttl;
}

-- `INSERT … ON CONFLICT DO NOTHING RETURNING id`.
unfoldable pub insert_row : Time → RowKey → String → Uuid → Store → Store × Option Uuid
insert_row now k fp fresh s = elim (lookup k s) [
  | none ↦ (insert k (new_row now fp fresh) s, some fresh)
  | some _ ↦ (s, none)
]

-- What `begin` does with the row that it read; no answer when it has to read again.
unfoldable pub act : Time → RowKey → String → Uuid → Option Row → Store → Store × Option Begin
unfolding update insert_row
act now k fp fresh (some r) s =
    if not (r.fingerprint == fp)
    then (s, some mismatch)
    else (if r.status == "completed"
        then (
          s,
          some (
              replay (elim r.response_status [ none ↦ pos 200 | some n ↦ n ])
                (elim r.response [ none ↦ null | some v ↦ v ])),
        )
        else (if r.status == "processing"
            then (s, some in_progress)
            else (update (taken_over now) r.id s, some (proceed r.id))))
act now k fp fresh none s =
    let (s₁, inserted) = insert_row now k fp fresh s in
    (s₁, elim inserted [ some rid ↦ some (proceed rid) | none ↦ none ])

-- `begin` with nothing of another session between its statements.
unfoldable pub attempts : ℕ → Time → RowKey → String → Uuid → Store → Store × Begin
unfolding select act
attempts zero now k fp fresh s = (s, in_progress)
attempts (suc n) now k fp fresh s =
    let (s₁, answer) = act now k fp fresh (select now k s) s in
    elim answer [ some b ↦ (s₁, b) | none ↦ attempts n now k fp fresh s₁ ]

unfoldable pub begin : Time → RowKey → String → Uuid → Store → Store × Begin
begin = attempts 2

abbrev pub completed : ℤ → Value → Option Uuid → Row → Row
completed status response task_id r = record {
  id = r.id;
  fingerprint = r.fingerprint;
  status = "completed";
  response = some response;
  response_status = some status;
  task_id = task_id;
  expires_at = r.expires_at;
}

abbrev pub failed : Row → Row
failed r = record {
  id = r.id;
  fingerprint = r.fingerprint;
  status = "failed";
  response = r.response;
  response_status = r.response_status;
  task_id = r.task_id;
  expires_at = r.expires_at;
}

unfoldable pub complete : Uuid → ℤ → Value → Option Uuid → Store → Store
unfolding update
complete rid status response task_id = update (completed status response task_id) rid

unfoldable pub fail : Uuid → Store → Store
unfolding update
fail rid = update failed rid

-- What is left, and the number of rows that were deleted is not used.
unfoldable pub cleanup_expired : Time → Store → Store
cleanup_expired now = filter (λ (k, r). ltb now r.expires_at)
