-- ===== src/Idempotency/Sessions.antt =====
-- src/idempotency.rs: what requests with the same idempotency key are answered.
use nextapi.Base.{
  ℤ, pos, ◌+◌, ◌≤◌, ◌<◌, ◌≡◌, refl, sym, ap, ◌∙◌, inl, inr, true, not, String, Option, none, some,
  [], ◌∷◌, ltb, if◌then◌else◌, lookup, insert, ◌==◌, eq_self, ℕ_eq, String_eq, pair_eq, arith,
  Bool-cases, Option-cases, lookup-insert_self, remove, lookup-remove_self,
}
use nextapi.Base.Json.{Value, null}
use nextapi.Entities.{Uuid, Time}
use nextapi.Idempotency.{
  Row, RowKey, Store, proceed, replay, mismatch, in_progress, ttl, update, select, insert_row, act,
  attempts, begin, complete, fail, taken_over, new_row, completed, failed,
}

abbrev change : (Row → Row) → Uuid → Row → Row
change f rid r = if r.id == rid then f r else r

abbrev changed : (Row → Row) → Uuid → Option Row → Option Row
changed f rid none = none
changed f rid (some r) = some (change f rid r)

lookup-update :
    (f : Row → Row) (rid : Uuid) (k : RowKey) (s : Store)
    → lookup k (update f rid s) ≡ changed f rid (lookup k s)
unfolding lookup update
lookup-update f rid k [] = refl
lookup-update f rid k ((j, w) ∷ s) = elim (Bool-cases (j == k)) [
  | inl e ↦ rw e refl
  | inr e ↦ rw e (lookup-update f rid k s)
]

-- The row that `begin` leaves when it lets a request through.
abbrev IsMine : Time → String → Uuid → Row → Type 0
IsMine now fp rid r =
    (r.id ≡ rid) × (r.fingerprint ≡ fp) × (r.status ≡ "processing") × (r.expires_at ≡ now + ttl)

data Read (now : Time) (k : RowKey) (s : Store) : Type 0 where
  absent : lookup k s ≡ none → Read now k s
  expired : (r : Row) → lookup k s ≡ some r → r.expires_at ≤ now → Read now k s
  valid : (r : Row) → lookup k s ≡ some r → now < r.expires_at → Read now k s

read : (now : Time) (k : RowKey) (s : Store) → Read now k s
read now k s = elim (Option-cases (lookup k s)) [
  | inl e ↦ absent e
  | inr (r, e) ↦ elim (Bool-cases (ltb now r.expires_at)) [
    | inl t ↦ valid r e (ground arith)
    | inr t ↦ expired r e (ground arith)
  ]
]

begin_absent :
    (now : Time) (k : RowKey) (fp : String) (fresh : Uuid) (s : Store)
    → lookup k s ≡ none
    → begin now k fp fresh s ≡ (insert k (new_row now fp fresh) s, proceed fresh)
unfolding begin attempts select act insert_row
begin_absent now k fp fresh s e = ground (arith, e)

begin_expired :
    (now : Time) (k : RowKey) (fp : String) (fresh : Uuid) (s : Store) (r : Row)
    → lookup k s ≡ some r
    → r.expires_at ≤ now
    → begin now k fp fresh s ≡ (s, in_progress)
unfolding begin attempts select act insert_row
begin_expired now k fp fresh s r e h = ground (arith, e)

begin_valid :
    (now : Time) (k : RowKey) (fp : String) (fresh : Uuid) (s : Store) (r : Row)
    → lookup k s ≡ some r
    → now < r.expires_at
    → begin now k fp fresh s ≡ (
        if not (r.fingerprint == fp)
        then (s, mismatch)
        else (if r.status == "completed"
            then (
              s,
              replay
                  (elim r.response_status [ none ↦ pos 200 | some n ↦ n ])
                  (elim r.response [ none ↦ null | some v ↦ v ]),
            )
            else (if r.status == "processing"
                then (s, in_progress)
                else (update (taken_over now) r.id s, proceed r.id))))
unfolding begin attempts select act
begin_valid now k fp fresh s r e h = ground (arith, e)

begin_processing :
    (now : Time) (k : RowKey) (fp₀ fp : String) (fresh : Uuid) (s : Store) (r : Row)
    → lookup k s ≡ some r
    → now < r.expires_at
    → r.fingerprint ≡ fp₀
    → r.status ≡ "processing"
    → begin now k fp fresh s ≡ (s, (if fp₀ == fp then in_progress else mismatch))
begin_processing now k fp₀ fp fresh s r e t f p =
    begin_valid now k fp fresh s r e t
    ∙ rw (f, p) (elim (Bool-cases (fp₀ == fp)) [ inl q ↦ rw q refl | inr q ↦ rw q refl ])

owned_new :
    (now : Time) (k : RowKey) (fp : String) (fresh rid : Uuid) (s s₁ : Store)
    → lookup k s ≡ none
    → begin now k fp fresh s ≡ (s₁, proceed rid)
    → (r : Row) × (lookup k s₁ ≡ some r) × IsMine now fp rid r
owned_new now k fp fresh rid s s₁ e h =
    let p = begin_absent now k fp fresh s e in
    let q : insert k (new_row now fp fresh) s ≡ s₁ = ground (arith, p) in
    (
      new_row now fp fresh,
      rw (sym q) (lookup-insert_self k (new_row now fp fresh) s),
      (ground (arith, p), refl, refl, refl),
    )

owned_failed :
    (now : Time) (k : RowKey) (fp : String) (fresh rid : Uuid) (s s₁ : Store) (r : Row)
    → lookup k s ≡ some r
    → now < r.expires_at
    → begin now k fp fresh s ≡ (s₁, proceed rid)
    → (q : Row) × (lookup k s₁ ≡ some q) × IsMine now fp rid q
owned_failed now k fp fresh rid s s₁ r e t h =
    let p = begin_valid now k fp fresh s r e t in
    let m : (r.fingerprint == fp) ≡ true = ground (arith, p) in
    let u : update (taken_over now) r.id s ≡ s₁ = ground (arith, p) in
    let i : r.id ≡ rid = ground (arith, p) in
    let v : lookup k (update (taken_over now) r.id s) ≡ some (taken_over now r) =
      lookup-update (taken_over now) r.id k s ∙ rw (e, eq_self r.id) refl in
    (taken_over now r, rw (sym u) v, (i, (String_eq.test_iff r.fingerprint fp).0 m, refl, refl))

owned :
    (now : Time) (k : RowKey) (fp : String) (fresh rid : Uuid) (s s₁ : Store)
    → begin now k fp fresh s ≡ (s₁, proceed rid)
    → (r : Row) × (lookup k s₁ ≡ some r) × IsMine now fp rid r
owned now k fp fresh rid s s₁ h = elim (read now k s) [
  | absent e ↦ owned_new now k fp fresh rid s s₁ e h
  | expired r e t ↦ absurd (ground (arith, begin_expired now k fp fresh s r e t))
  | valid r e t ↦ owned_failed now k fp fresh rid s s₁ r e t h
]

module _ (now t : Time) (k : RowKey) (fp fp₁ : String) (fresh fresh₁ rid : Uuid) (s s₁ : Store)
    (started : begin now k fp fresh s ≡ (s₁, proceed rid)) (in_time : t < now + ttl) where
  pub excludes : begin t k fp₁ fresh₁ s₁ ≡ (s₁, (if fp == fp₁ then in_progress else mismatch))
  excludes =
      let (r, l, (i, f, p, x)) = owned now k fp fresh rid s s₁ started in
      begin_processing t k fp fp₁ fresh₁ s₁ r l (rw x in_time) f p

  -- After a request that was let through has completed, and until its row expires, one with its key and parameters
  -- is given the response that was stored, and one with its key and other parameters is refused; neither changes
  -- the table.
  pub replays :
      (status : ℤ) (response : Value) (task_id : Option Uuid)
      → begin t k fp₁ fresh₁ (complete rid status response task_id s₁) ≡ (
        complete rid status response task_id s₁,
        (if fp == fp₁ then replay status response else mismatch),
      )
  unfolding complete update
  replays status response task_id =
      let (r, l, (i, f, p, x)) = owned now k fp fresh rid s s₁ started in
      let q : lookup k (complete rid status response task_id s₁)
          ≡ some (completed status response task_id r) =
        lookup-update (completed status response task_id) rid k s₁ ∙ rw (l, i, eq_self rid) refl in
      ground (
        arith,
        begin_valid t k fp₁ fresh₁ (complete rid status response task_id s₁)
            (completed status response task_id r) q (rw x in_time),
      )

  -- After a request that was let through has failed, and until its row expires, one with its key and parameters is
  -- let through again, under the same row, and one with other parameters is refused.
  pub retries :
      (begin t k fp₁ fresh₁ (fail rid s₁)).1 ≡ (if fp == fp₁ then proceed rid else mismatch)
  unfolding fail update
  retries =
      let (r, l, (i, f, p, x)) = owned now k fp fresh rid s s₁ started in
      let q : lookup k (fail rid s₁) ≡ some (failed r) =
        lookup-update failed rid k s₁ ∙ rw (l, i, eq_self rid) refl in
      ground (arith, begin_valid t k fp₁ fresh₁ (fail rid s₁) (failed r) q (rw x in_time))

-- A row past its validity that is not yet cleaned up still blocks its key: a request is refused as being processed,
-- though none is, and the table stays as it is; once the row is deleted the same request is let through.
pub expired_blocks :
    (now : Time) (k : RowKey) (fp : String) (fresh : Uuid) (s : Store) (r : Row)
    → lookup k s ≡ some r
    → r.expires_at ≤ now
    → (begin now k fp fresh s ≡ (s, in_progress))
      × ((begin now k fp fresh (remove k s)).1 ≡ proceed fresh)
expired_blocks now k fp fresh s r e h = (
  begin_expired now k fp fresh s r e h,
  ap (λ b. b.1) (begin_absent now k fp fresh (remove k s) (lookup-remove_self k s)),
)

select_valid :
    (now : Time) (k : RowKey) (s : Store) (r : Row)
    → lookup k s ≡ some r
    → now < r.expires_at
    → select now k s ≡ some r
unfolding select
select_valid now k s r e h = ground (arith, e)

-- What a request does with a failed row that it read before, whatever the table is now.
act_failed :
    (t : Time) (k : RowKey) (fp : String) (fresh : Uuid) (s₀ : Store) (r : Row)
    → r.fingerprint ≡ fp
    → r.status ≡ "failed"
    → (act t k fp fresh (some r) s₀).1 ≡ some (proceed r.id)
unfolding act
act_failed t k fp fresh s₀ r f d = rw (f, d) (rw (eq_self fp) refl)

-- A request with the key and the parameters of a valid failed row is let through. Of a second one with these, before the
-- new validity ends, only the moment of its reading decides: if it reads after that it is refused as being processed, but
-- if it read the failed row before, it is let through as well, under the same row.
pub both_take_over :
    (now t₀ t₁ : Time) (k : RowKey) (fp : String) (fresh₀ fresh₁ : Uuid) (s : Store) (r : Row)
    → lookup k s ≡ some r
    → now < r.expires_at
    → t₀ < r.expires_at
    → t₁ < t₀ + ttl
    → r.fingerprint ≡ fp
    → r.status ≡ "failed"
    → let s₀ = (begin t₀ k fp fresh₀ s).0 in
      ((begin t₀ k fp fresh₀ s).1 ≡ proceed r.id)
      × (begin t₁ k fp fresh₁ s₀ ≡ (s₀, in_progress))
      × ((act t₁ k fp fresh₁ (select now k s) s₀).1 ≡ some (proceed r.id))
both_take_over now t₀ t₁ k fp fresh₀ fresh₁ s r e h h₀ h₁ f d =
    let started : begin t₀ k fp fresh₀ s ≡ (update (taken_over t₀) r.id s, proceed r.id) =
      begin_valid t₀ k fp fresh₀ s r e h₀ ∙ rw (f, d) (rw (eq_self fp) refl) in
    rw started (
      refl,
      excludes t₀ t₁ k fp fp fresh₀ fresh₁ r.id s (update (taken_over t₀) r.id s) started h₁
          ∙ rw (eq_self fp) refl,
      ap (λ o. (act t₁ k fp fresh₁ o (update (taken_over t₀) r.id s)).1)
            (select_valid now k s r e h)
          ∙ act_failed t₁ k fp fresh₁ (update (taken_over t₀) r.id s) r f d,
    )
