-- ===== src/Store/Pending.antt =====
-- internal/postgres/wager_repository.go: the transactions that wait for their reference, and their
-- retries.
use croupier.Prelude.{
  ℕ, suc, String, Bool, true, ◌&&◌, ◌==◌, ltb, leb, Option, none, some, List, [], ◌∷◌, take, map,
  if◌then◌else◌,
}
use croupier.Errors.{Result, ok, ◌>>=◌}
use croupier.Values.{micros, Uuid, Time}
use croupier.Wager.{Transaction, is_pending_reference}
use croupier.Store.Tables.{WagerRow}
use croupier.Store.Monad.{App, query, exec}
use croupier.Store.Wagers.{scan_wager}

-- `app.PendingReferenceRetry`
pub record PendingReferenceRetry : Type 0 where
  pub transaction : Transaction
  pub attempts : ℕ

abbrev is_due : Time → Option Time → Bool
is_due now none = true
is_due now (some t) = leb t now

-- `WHERE status = $1 AND (next_retry_at IS NULL OR next_retry_at <= $2)`
pub due_rows : Time → List WagerRow → List WagerRow
due_rows now [] = []
due_rows now (r ∷ rs) =
    let rest = due_rows now rs in
    if is_pending_reference r.status && is_due now r.pending_reference_next_retry_at
    then r ∷ rest
    else rest

pub insert_by_creation : WagerRow → List WagerRow → List WagerRow
insert_by_creation r [] = r ∷ []
insert_by_creation r (s ∷ rs) =
    if ltb r.created_at s.created_at then r ∷ s ∷ rs else s ∷ insert_by_creation r rs

-- `ORDER BY created_at`
pub by_creation : List WagerRow → List WagerRow
unfolding insert_by_creation
by_creation [] = []
by_creation (r ∷ rs) = insert_by_creation r (by_creation rs)

-- `scanWagerTransactionWithAttempts`, in the loop over the rows
pub scan_retries : (String → Bool) → List WagerRow → Result (List PendingReferenceRetry)
unfolding scan_wager
scan_retries parse_iso [] = ok []
scan_retries parse_iso (r ∷ rs) = do
  tx ← scan_wager parse_iso r
  rest ← scan_retries parse_iso rs
  ok (record { transaction = tx; attempts = r.pending_reference_attempts } ∷ rest)

-- `FindDuePendingReferences`
unfoldable pub find_due_pending_references :
    (String → Bool) → Time → ℕ → App (List PendingReferenceRetry)
unfolding scan_retries by_creation due_rows
find_due_pending_references parse_iso now limit =
    query
      (λ db. scan_retries parse_iso (take limit (by_creation (due_rows (micros now) db.wagers))))

abbrev scheduled : Uuid → Time → WagerRow → WagerRow
scheduled id next r =
    if r.id == id && is_pending_reference r.status
    then record r {
      pending_reference_attempts = suc r.pending_reference_attempts;
      pending_reference_next_retry_at = some (micros next);
    }
    else r

-- `ScheduleNextPendingReferenceRetry`
unfoldable pub schedule_next_retry : Uuid → Time → App (Unit {0})
schedule_next_retry id next =
    exec (λ db. ok (record db { wagers = map (scheduled id next) db.wagers }))
