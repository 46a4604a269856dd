-- ===== src/Sqs/Consumer/Books.antt =====
-- The consumer keeps the books, whatever the queue delivers, how often and in which order.
use croupier.Prelude.{String, ◌≡◌, Option, none, some, List, [], ◌∷◌, not, ◌==◌}
use croupier.Errors.{Error, AppError, Result, ok, err}
use croupier.Values.{Digest}
use croupier.Outbox.Inbox.{Inbox, is_completed}
use croupier.Store.Tables.{Db}
use croupier.Store.Monad.{World, idle}
use croupier.Store.Keeps.{
  Keeps, Keeps-pure, Keeps-raise, Keeps-query, Keeps-exec, Keeps-draw_uuid, Keeps-read_clock,
  Keeps-attempt, Keeps-lift, Keeps-bind, Keeps-bind-lift, Keeps-if, Keeps-within_tx,
}
use croupier.Store.Outbox.{find_inbox, save_inbox}
use croupier.Store.Books.Writes.{BookPred, On, ok_written}
use croupier.App.Env.{Env}
use croupier.App.Movement.Conservation.{Reconciled}
use croupier.App.Submit.Books.{submit-Keeps}
use croupier.Sqs.{Envelope, Delivery, Settings}
use croupier.Sqs.Consumer.{
  inbox_or_nil, recorded, complete, process_once, submit_message, unless_completed, handle_envelope,
  handle, process_message, process_batch, run,
}

save_inbox-Keeps : (B : BookPred) (i : Inbox) → Keeps (On B) (save_inbox i)
unfolding save_inbox
save_inbox-Keeps B i = Keeps-exec _ (λ db db' e b. ok_written B e b)

pub find_inbox-Keeps :
    {P : Db → Type 0} (consumer_name message_id : String)
    → Keeps P (find_inbox consumer_name message_id)
unfolding find_inbox
find_inbox-Keeps consumer_name message_id = Keeps-query _

pub inbox_or_nil-Keeps : {P : Db → Type 0} (r : Result Inbox) → Keeps P (inbox_or_nil r)
inbox_or_nil-Keeps (ok entry) = Keeps-pure _
inbox_or_nil-Keeps (err (Error.app AppError.inbox_entry_not_found)) = Keeps-pure _
inbox_or_nil-Keeps (err e) = Keeps-raise e

module _ (env : Env) (c : Settings) where
  recorded-Keeps :
      (B : BookPred) (message_id : String) (hash : Digest) (known : Option Inbox)
      → Keeps (On B) (recorded env c message_id hash known)
  unfolding recorded
  recorded-Keeps B message_id hash (some entry) = Keeps-pure _
  recorded-Keeps B message_id hash none =
      Keeps-bind (Keeps-read_clock _)
        λ now. Keeps-bind-lift _ λ entry _. Keeps-bind (save_inbox-Keeps B entry) λ _. Keeps-pure _

  complete-Keeps : (B : BookPred) (entry : Inbox) → Keeps (On B) (complete env c entry)
  unfolding complete
  complete-Keeps B entry =
      Keeps-bind (Keeps-read_clock _)
        λ now. Keeps-bind-lift _ λ completed _. save_inbox-Keeps B completed

  process_once-Keeps :
      (e : Envelope) (hash : Digest) (id : String) (known : Option Inbox)
      → Keeps (On Reconciled) (process_once env c e hash id known)
  unfolding process_once
  process_once-Keeps e hash id known =
      Keeps-bind (recorded-Keeps Reconciled e.message_id hash known) λ entry.
        Keeps-bind (submit-Keeps env _)
          λ result. Keeps-bind (complete-Keeps Reconciled entry) λ _. Keeps-pure _

  submit_message-Keeps :
      (e : Envelope) (hash : Digest) (id : String) (known : Option Inbox)
      → Keeps (On Reconciled) (submit_message env c e hash id known)
  unfolding submit_message
  submit_message-Keeps e hash id known =
      Keeps-bind (Keeps-within_tx (process_once-Keeps e hash id known).inside)
        λ result. Keeps-pure _

  unless_completed-Keeps :
      (e : Envelope) (hash : Digest) (id : String) (known : Option Inbox)
      → Keeps (On Reconciled) (unless_completed env c e hash id known)
  unfolding unless_completed
  unless_completed-Keeps e hash id none = submit_message-Keeps e hash id none
  unless_completed-Keeps e hash id (some entry) =
      Keeps-if (not (entry.payload_hash == hash)) (Keeps-raise _)
        (Keeps-if (is_completed entry) (Keeps-pure _) (submit_message-Keeps e hash id (some entry)))

  handle_envelope-Keeps :
      (e : Envelope) (hash : Digest) (id : String)
      → Keeps (On Reconciled) (handle_envelope env c e hash id)
  unfolding handle_envelope
  handle_envelope-Keeps e hash id =
      Keeps-bind (Keeps-attempt (find_inbox-Keeps _ _)) λ found.
        Keeps-bind (inbox_or_nil-Keeps found) λ known. unless_completed-Keeps e hash id known

  handle-Keeps : (d : Delivery) (id : String) → Keeps (On Reconciled) (handle env c d id)
  unfolding handle
  handle-Keeps d id =
      Keeps-bind (Keeps-lift _) λ e. Keeps-bind (Keeps-lift _) λ _. handle_envelope-Keeps e _ id

  process_message-Keeps : (d : Delivery) → Keeps (On Reconciled) (process_message env c d)
  unfolding process_message
  process_message-Keeps d =
      Keeps-bind (Keeps-draw_uuid _)
        λ id. Keeps-bind (Keeps-attempt (handle-Keeps d _)) λ outcome. Keeps-pure _

  process_batch-Keeps : (ds : List Delivery) → Keeps (On Reconciled) (process_batch env c ds)
  unfolding process_batch
  process_batch-Keeps [] = Keeps-pure _
  process_batch-Keeps (d ∷ ds) =
      Keeps-bind (process_message-Keeps d)
        λ deleted. Keeps-bind (process_batch-Keeps ds) λ receipts. Keeps-pure _

  pub run-Keeps :
      (receives : List (Result (List Delivery))) → Keeps (On Reconciled) (run env c receives)
  unfolding run
  run-Keeps [] = Keeps-pure _
  run-Keeps (err e ∷ receives) = Keeps-pure _
  run-Keeps (ok batch ∷ receives) =
      Keeps-bind (process_batch-Keeps batch)
        λ receipts. Keeps-bind (run-Keeps receives) λ rest. Keeps-pure _

  -- From right books, whatever batches the consumer receives, with any message in them malformed,
  -- repeated or conflicting, and whichever database calls fail, it leaves right books and no
  -- transaction open.
  pub run-Reconciled :
      (receives : List (Result (List Delivery))) (w : World)
      → w.session ≡ idle
      → Reconciled w.db.wallets w.db.ledger
      → let w' = (run env c receives w).1 in
        Reconciled w'.db.wallets w'.db.ledger × (w'.session ≡ idle)
  run-Reconciled receives w i p = let (q, j) = (run-Keeps receives).at w i p in (q, j)
