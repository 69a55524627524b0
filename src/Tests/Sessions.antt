-- ===== src/Tests/Sessions.antt =====
-- The theorems on idempotency keys and on credentials, at concrete rows.
use nextapi.Base.{
  pos, ◌+◌, ◌*◌, ◌≡◌, refl, none, some, [], ◌∷◌, arith, lookup, insert, remove, ℕ_eq, String_eq,
  pair_eq,
}
use nextapi.Base.Json.{str}
use nextapi.Entities.{second}
use nextapi.Idempotency.{
  Row, RowKey, Store, proceed, mismatch, in_progress, begin, attempts, select, act, insert_row,
  complete, ttl, new_row,
}
use nextapi.Idempotency.Sessions.{replays, expired_blocks, both_take_over}
use nextapi.Upstream.{AuthFailure}

abbrev idem_key : RowKey
idem_key = (7, "order-0001")

abbrev held : Store
held = (idem_key, new_row 10 "fp" 1) ∷ []

started : begin 10 idem_key "fp" 1 [] ≡ (held, proceed 1)
unfolding begin attempts select act insert_row lookup insert
started = refl

replays_example :
    begin 20 idem_key "other" 2 (complete 1 (pos 200) (str "done") none held)
    ≡ (complete 1 (pos 200) (str "done") none held, mismatch)
replays_example =
    replays 10 20 idem_key "fp" "other" 1 2 1 [] held started (omega arith) (pos 200) (str "done")
      none

expired_blocks_example :
    (begin (10 + ttl) idem_key "fp" 2 held ≡ (held, in_progress))
    × ((begin (10 + ttl) idem_key "fp" 2 (remove idem_key held)).1 ≡ proceed 2)
unfolding lookup
expired_blocks_example =
    expired_blocks (10 + ttl) idem_key "fp" 2 held (new_row 10 "fp" 1) refl (omega arith)

abbrev failed_row : Row
failed_row = record (new_row 10 "fp" 1) { status = "failed" }

abbrev after_failure : Store
after_failure = (idem_key, failed_row) ∷ []

both_take_over_example :
    ((begin 20 idem_key "fp" 2 after_failure).1 ≡ proceed 1)
    × (begin 21 idem_key "fp" 3 (begin 20 idem_key "fp" 2 after_failure).0
        ≡ ((begin 20 idem_key "fp" 2 after_failure).0, in_progress))
    × ((act 21 idem_key "fp" 3
          (select 19 idem_key after_failure)
          (begin 20 idem_key "fp" 2 after_failure).0).1
        ≡ some (proceed 1))
unfolding lookup
both_take_over_example =
    both_take_over 19 20 21 idem_key "fp" 2 3 after_failure failed_row refl (omega arith)
      (omega arith) (omega arith) refl refl

abbrev expired_token : AuthFailure
expired_token = record { at = 10 * second; status_code = 401; code_text = "token expired" }
