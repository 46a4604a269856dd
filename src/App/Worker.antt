-- ===== src/App/Worker.antt =====
-- internal/app/outbox_worker.go, and backoffDelay of internal/app/pending_reference_resolver.go. The
-- publisher is a parameter: the error that publishing an entry gives, if any. Metrics are left out, and
-- so is the flag that `RunOnce` returns beside an error, which its caller does not read.
pub mod Backoff
pub mod Relay
pub mod Books
use croupier.Prelude.{
  ℕ, suc, ◌*◌, ◌^◌, ◌-◌, Bool, true, false, Option, none, some, List, [], ◌∷◌, if◌then◌else◌,
}
use croupier.Prelude.Int.{ℤ, pos, negsuc, pos_part, ◌+ℤ◌, ltb_ℤ}
use croupier.Prelude.Int64.{wrap64}
use croupier.Errors.{Error, Result, ok, err, outbox_entry_not_found}
use croupier.Values.{Time}
use croupier.Outbox.{Entry, mark_published, schedule_retry}
use croupier.Store.Monad.{App, pure, raise, lift, attempt, read_clock, within_tx, ◌>>=◌, ◌>>◌}
use croupier.Store.Outbox.{find_due_for_update, save_all}
use croupier.App.Env.{Env}

abbrev max_shift : ℤ
max_shift = pos 20

-- `attempts` cut to the range from 0 to `maxShift`
abbrev pub shift_of : ℤ → ℕ
shift_of attempts =
    if ltb_ℤ attempts (pos 0) then 0 else if ltb_ℤ max_shift attempts then 20 else pos_part attempts

-- `base << k` before the wrap-around
abbrev pub shift_left : ℤ → ℕ → ℤ
shift_left (pos n) k = pos (n * 2 ^ k)
shift_left (negsuc n) k = negsuc (suc n * 2 ^ k - 1)

-- `backoffDelay`
unfoldable pub backoff_delay : ℤ → ℤ → ℤ
backoff_delay base attempts = wrap64 (shift_left base (shift_of attempts))

-- `Time.Add`, no further back than the zero time
abbrev pub add_time : Time → ℤ → Time
add_time t d = pos_part (pos t +ℤ d)

module _ (env : Env) (publish : Entry → Option Error) (backoff_base : ℤ) where
  -- the two branches on the outcome of `Publish`
  unfoldable pub after_publish : Entry → Option Error → App Bool
  after_publish entry (some e) = do
    now ← read_clock env.clock
    retried ←
        lift (schedule_retry entry (add_time now (backoff_delay backoff_base entry.retry_count)))
    save_all (retried ∷ [])
    pure true
  after_publish entry none = do save_all (mark_published entry ∷ []); pure true

  -- `errors.Is(err, ErrOutboxEntryNotFound)` ends the run with nothing processed
  unfoldable pub publish_found : Result Entry → App Bool
  unfolding after_publish
  publish_found (ok entry) = after_publish entry (publish entry)
  publish_found (err (Error.app outbox_entry_not_found)) = pure false
  publish_found (err e) = raise e

  unfoldable pub publish_due : App Bool
  unfolding publish_found
  publish_due = do
    found ← attempt (find_due_for_update env.jsonb_text env.clock)
    publish_found found

  unfoldable pub run_once : App Bool
  unfolding publish_due
  run_once = within_tx publish_due
