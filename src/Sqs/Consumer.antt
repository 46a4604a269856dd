-- ===== src/Sqs/Consumer.antt =====
-- internal/sqs/consumer.go: from a delivery to a submission. `handle` returns what it reports to the
-- metrics beside a nil error, `none` where it submits nothing.
pub mod Books
pub mod Done
pub mod Commit
pub mod Redelivery
pub mod Live
use croupier.Prelude.{
  String, Bool, true, false, not, ◌==◌, str_eq, Option, none, some, List, [], ◌∷◌, ◌++◌,
  if◌then◌else◌,
}
use croupier.Errors.{Error, Result, ok, err, different_content, inbox_entry_not_found}
use croupier.Values.{Digest}
use croupier.Wager.{TxStatus, pending, pending_reference, processed, rejected, failed, kind_text}
use croupier.Outbox.Inbox.{Inbox, new, is_completed, mark_completed}
use croupier.Store.Monad.{
  App, pure, raise, lift, attempt, draw_uuid, read_clock, within_tx, ◌>>=◌, ◌>>◌,
}
use croupier.Store.Outbox.{find_inbox, save_inbox}
use croupier.App.Env.{Env}
use croupier.App.Movement.{SubmitInput, SubmitResult}
use croupier.App.Submit.{submit}
use croupier.Sqs.{Message, Envelope, Delivery, Settings, Observation, check_envelope}

-- `err != nil && !errors.Is(err, app.ErrInboxEntryNotFound)` returns; not found is nil
abbrev pub inbox_or_nil : Result Inbox → App (Option Inbox)
inbox_or_nil (ok entry) = pure (some entry)
inbox_or_nil (err (Error.app inbox_entry_not_found)) = pure none
inbox_or_nil (err e) = raise e

-- `strings.ToLower(string(status))`
abbrev lower_status : TxStatus → String
lower_status pending = "pending"
lower_status pending_reference = "pending_reference"
lower_status processed = "processed"
lower_status rejected = "rejected"
lower_status failed = "failed"

-- `wagerOutcome`; a result without a transaction does not occur
unfoldable pub wager_outcome : SubmitResult → String
wager_outcome result =
    if result.idempotent_replay then "replay" else lower_status result.transaction.status

unfoldable pub submit_input : Message → String → SubmitInput
submit_input m correlation_id = record {
  transaction = record {
    provider_id = m.provider_id;
    external_transaction_id = m.external_transaction_id;
    player_id = m.player_id;
    wallet_id = m.wallet_id;
    round_id = m.round_id;
    game_id = m.game_id;
    kind = m.kind;
    amount = m.money;
    reference_external_transaction_id = m.reference_external_transaction_id;
  };
  correlation_id = correlation_id;
}

-- whether `DeleteMessage` follows
abbrev pub was_handled : Result (Option Observation) → Bool
was_handled (ok o) = true
was_handled (err e) = false

module _ (env : Env) (c : Settings) where
  -- `if entry == nil { inbox.New; Save }`
  unfoldable pub recorded : String → Digest → Option Inbox → App Inbox
  recorded message_id hash (some entry) = pure entry
  recorded message_id hash none = do
    now ← read_clock env.clock
    entry ← lift (
        new now (record {
          consumer_name = c.consumer_name;
          message_id = message_id;
          payload_hash = hash;
        }))
    save_inbox entry
    pure entry

  unfoldable pub complete : Inbox → App (Unit {0})
  complete entry = do
    now ← read_clock env.clock
    completed ← lift (mark_completed now entry)
    save_inbox completed

  -- the body of the transaction in `handle`
  unfoldable pub process_once : Envelope → Digest → String → Option Inbox → App SubmitResult
  unfolding recorded complete
  process_once e hash correlation_id known = do
    entry ← recorded e.message_id hash known
    result ← submit env (submit_input e.message correlation_id)
    complete entry
    pure result

  unfoldable pub submit_message :
      Envelope → Digest → String → Option Inbox → App (Option Observation)
  unfolding process_once
  submit_message e hash correlation_id known = do
    result ← within_tx (process_once e hash correlation_id known)
    pure (some (record { kind_label = kind_text e.message.kind; outcome = wager_outcome result }))

  -- the `switch` on an entry that is known already
  unfoldable pub unless_completed :
      Envelope → Digest → String → Option Inbox → App (Option Observation)
  unfolding submit_message
  unless_completed e hash correlation_id none = submit_message e hash correlation_id none
  unless_completed e hash correlation_id (some entry) =
      if not (entry.payload_hash == hash)
      then raise (Error.sqs different_content)
      else if is_completed entry
      then pure none
      else submit_message e hash correlation_id (some entry)

  unfoldable pub handle_envelope : Envelope → Digest → String → App (Option Observation)
  unfolding unless_completed
  handle_envelope e hash correlation_id = do
    found ← attempt (find_inbox c.consumer_name e.message_id)
    known ← inbox_or_nil found
    unless_completed e hash correlation_id known

  -- `handle`
  unfoldable pub handle : Delivery → String → App (Option Observation)
  unfolding handle_envelope
  handle d correlation_id = do
    e ← lift (c.codec.decode_envelope d.body)
    lift (check_envelope e)
    handle_envelope e (c.codec.body_hash d.body) correlation_id

  -- `processMessage`: whether it asks the queue to delete the message
  unfoldable pub process_message : Delivery → App Bool
  unfolding handle
  process_message d = do
    id ← draw_uuid env.new_uuid
    outcome ← attempt (handle d (env.uuid_text id))
    pure (was_handled outcome)

  -- the loop of `Run` over a batch: the receipts it asks the queue to delete
  unfoldable pub process_batch : List Delivery → App (List String)
  unfolding process_message
  process_batch [] = pure []
  process_batch (d ∷ ds) = do
    deleted ← process_message d
    receipts ← process_batch ds
    pure (if deleted then d.receipt_handle ∷ receipts else receipts)

  -- `Run`, from what the test of the context and `ReceiveMessage` return each time round: the receipts
  -- it asks the queue to delete, and the error that ends it
  unfoldable pub run : List (Result (List Delivery)) → App (List String × Option Error)
  unfolding process_batch
  run [] = pure ([], none)
  run (err e ∷ receives) = pure ([], some e)
  run (ok batch ∷ receives) = do
    receipts ← process_batch batch
    rest ← run receives
    let (later, ended) = rest
    pure (receipts ++ later, ended)
