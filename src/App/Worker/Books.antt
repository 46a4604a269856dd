-- ===== src/App/Worker/Books.antt =====
-- The relay touches neither the wallets nor the ledger.
use croupier.Prelude.{Option, none, some}
use croupier.Prelude.Int.{ℤ}
use croupier.Errors.{Error, AppError, Result, ok, err}
use croupier.Outbox.{Entry}
use croupier.Store.Keeps.{
  Keeps, Keeps-pure, Keeps-raise, Keeps-query, Keeps-read_clock, Keeps-attempt, Keeps-lift,
  Keeps-bind, Keeps-within_tx,
}
use croupier.Store.Outbox.{find_due_for_update}
use croupier.Store.Books.Writes.{BookPred, On}
use croupier.Store.Books.Inside.{Keeps-save_all}
use croupier.App.Env.{Env}
use croupier.App.Worker.{after_publish, publish_found, publish_due, run_once}

module _ (B : BookPred) (env : Env) (publish : Entry → Option Error) (backoff_base : ℤ) where
  after_publish-Keeps :
      (e : Entry) (outcome : Option Error)
      → Keeps (On B) (after_publish env publish backoff_base e outcome)
  unfolding after_publish
  after_publish-Keeps e (some x) =
      Keeps-bind (Keeps-read_clock _) λ now.
        Keeps-bind (Keeps-lift _) λ retried. Keeps-bind (Keeps-save_all B _) λ _. Keeps-pure _
  after_publish-Keeps e none = Keeps-bind (Keeps-save_all B _) λ _. Keeps-pure _

  publish_found-Keeps : (r : Result Entry) → Keeps (On B) (publish_found env publish backoff_base r)
  unfolding publish_found
  publish_found-Keeps (ok e) = after_publish-Keeps e (publish e)
  publish_found-Keeps (err (Error.app AppError.outbox_entry_not_found)) = Keeps-pure _
  publish_found-Keeps (err x) = Keeps-raise x

  pub run_once-Keeps : Keeps (On B) (run_once env publish backoff_base)
  unfolding run_once publish_due find_due_for_update
  run_once-Keeps =
      Keeps-within_tx
        (Keeps-bind (Keeps-attempt (Keeps-bind (Keeps-read_clock _) λ now. Keeps-query _))
          publish_found-Keeps).inside
