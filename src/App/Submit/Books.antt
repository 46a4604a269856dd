-- ===== src/App/Submit/Books.antt =====
-- Whatever a submission does, fails or replays, the books stay right outside its transactions.
use croupier.Prelude.{String, ◌≡◌, Bool, Option, none, some}
use croupier.Errors.{Error, AppError, Result, ok, err}
use croupier.Values.{Uuid}
use croupier.Wager.{Transaction, is_loss, is_reversal, validate_reference}
use croupier.Wallet.Ledger.{LedgerEntry}
use croupier.Outbox.{Entry}
use croupier.Store.Tables.{Db}
use croupier.Store.Monad.{World, idle}
use croupier.Store.Keeps.{
  Keeps, Keeps-pure, Keeps-raise, Keeps-query, Keeps-draw_uuid, Keeps-read_clock, Keeps-attempt,
  Keeps-bind, Keeps-bind-lift, Keeps-if, Keeps-within_tx,
}
use croupier.Store.Wallets.{find_wallet}
use croupier.Store.Entries.{find_ledger_entry}
use croupier.Store.Wagers.{find_by_key}
use croupier.Store.Books.Writes.{On}
use croupier.Store.Books.Inside.{Keeps-save_wager, Keeps-save_all}
use croupier.App.Env.{Env}
use croupier.App.Events.Frame.{
  processed_event-Keeps, rejected_event-Keeps, pending_reference_event-Keeps,
}
use croupier.App.Movement.{
  SubmitInput, entry_or_nil, save_event, save_with_event, park_pending_reference, reject,
  processed_without_movement, finish_without_movement,
}
use croupier.App.Submit.{
  after_reference, against_reference, with_reference, process_reversal, process, balance_or_current,
  replay, conclude, submit_candidate, submit,
}
use croupier.App.Movement.Conservation.{Reconciled, movement-Reconciled, wager_or_nil-Keeps}

entry_or_nil-Keeps : {P : Db → Type 0} (r : Result LedgerEntry) → Keeps P (entry_or_nil r)
entry_or_nil-Keeps (ok tx) = Keeps-pure _
entry_or_nil-Keeps (err (Error.app AppError.ledger_entry_not_found)) = Keeps-pure _
entry_or_nil-Keeps (err e) = Keeps-raise e

find_wallet-Keeps :
    {P : Db → Type 0} (parse_iso : String → Bool) (id : Uuid) → Keeps P (find_wallet parse_iso id)
unfolding find_wallet
find_wallet-Keeps parse_iso id = Keeps-query _

find_by_key-Keeps :
    {P : Db → Type 0} (parse_iso : String → Bool) (provider_id external_id : String)
    → Keeps P (find_by_key parse_iso provider_id external_id)
unfolding find_by_key
find_by_key-Keeps parse_iso provider_id external_id = Keeps-query _

find_ledger_entry-Keeps :
    {P : Db → Type 0} (parse_iso : String → Bool) (id : Uuid)
    → Keeps P (find_ledger_entry parse_iso id)
unfolding find_ledger_entry
find_ledger_entry-Keeps parse_iso id = Keeps-query _

module _ (env : Env) where
  save_event-Keeps :
      (tx : Transaction) (event : Entry) → Keeps (On Reconciled) (save_event env tx event)
  unfolding save_event
  save_event-Keeps tx event =
      Keeps-bind (Keeps-save_wager Reconciled env.digest tx) λ _. Keeps-save_all Reconciled _

  save_with_event-Keeps :
      (tx : Transaction) (event : Entry) → Keeps (On Reconciled) (save_with_event env tx event)
  unfolding save_with_event
  save_with_event-Keeps tx event =
      Keeps-bind (Keeps-within_tx (save_event-Keeps tx event).inside)
        λ _. Keeps-bind (find_wallet-Keeps _ _) λ w. Keeps-pure _

  park_pending_reference-Keeps :
      (tx : Transaction) (c : String) → Keeps (On Reconciled) (park_pending_reference env tx c)
  unfolding park_pending_reference
  park_pending_reference-Keeps tx c = Keeps-bind (Keeps-read_clock _) λ now.
      Keeps-bind-lift _ λ parked _.
        Keeps-if _ (Keeps-bind (find_wallet-Keeps _ _) λ w. Keeps-pure _) (
          Keeps-bind (pending_reference_event-Keeps env parked c)
            λ event. save_with_event-Keeps parked event)

  pub reject-Keeps :
      (tx : Transaction) (code c : String) → Keeps (On Reconciled) (reject env tx code c)
  unfolding reject
  reject-Keeps tx code c = Keeps-bind (Keeps-read_clock _) λ now. Keeps-bind-lift _ λ rejected _.
      Keeps-bind (rejected_event-Keeps env rejected c) λ event. save_with_event-Keeps rejected event

  processed_without_movement-Keeps :
      (tx : Transaction) (c : String) → Keeps (On Reconciled) (processed_without_movement env tx c)
  unfolding processed_without_movement
  processed_without_movement-Keeps tx c = Keeps-bind (Keeps-read_clock _) λ now.
      Keeps-bind-lift _ λ processed _.
        Keeps-bind (processed_event-Keeps env processed c)
          λ event. save_with_event-Keeps processed event

  finish_without_movement-Keeps :
      (tx : Transaction) (c : String) → Keeps (On Reconciled) (finish_without_movement env tx c)
  unfolding finish_without_movement
  finish_without_movement-Keeps tx c =
      Keeps-bind (find_wallet-Keeps _ _)
        λ w. Keeps-if _ (Keeps-raise _) (processed_without_movement-Keeps tx c)

  after_reference-Keeps :
      (tx : Transaction) (c : String) (ref : Option Transaction)
      → Keeps (On Reconciled) (after_reference env tx c ref)
  unfolding after_reference
  after_reference-Keeps tx c ref = Keeps-if (is_loss tx.kind) (finish_without_movement-Keeps tx c) (
      Keeps-bind-lift _ λ direction _. Keeps-within_tx (movement-Reconciled env tx c direction ref))

  against_reference-Keeps :
      (tx : Transaction) (c : String) (ref : Transaction) (r : Result (Unit {0}))
      → Keeps (On Reconciled) (against_reference env tx c ref r)
  unfolding against_reference
  against_reference-Keeps tx c ref (err e) = reject-Keeps tx _ c
  against_reference-Keeps tx c ref (ok _) =
      Keeps-bind (Keeps-read_clock _)
        λ now. Keeps-bind-lift _ λ resolved _. after_reference-Keeps resolved c (some ref)

  with_reference-Keeps :
      (tx : Transaction) (c : String) (ref : Option Transaction)
      → Keeps (On Reconciled) (with_reference env tx c ref)
  unfolding with_reference
  with_reference-Keeps tx c none = park_pending_reference-Keeps tx c
  with_reference-Keeps tx c (some ref) =
      against_reference-Keeps tx c ref (validate_reference tx ref)

  process_reversal-Keeps :
      (tx : Transaction) (c : String) (r : Option String)
      → Keeps (On Reconciled) (process_reversal env tx c r)
  unfolding process_reversal
  process_reversal-Keeps tx c none = Keeps-raise _
  process_reversal-Keeps tx c (some reference) =
      Keeps-bind (Keeps-attempt (find_by_key-Keeps _ _ _)) λ found.
        Keeps-bind (wager_or_nil-Keeps found) λ referenced. with_reference-Keeps tx c referenced

  pub process-Keeps : (tx : Transaction) (c : String) → Keeps (On Reconciled) (process env tx c)
  unfolding process
  process-Keeps tx c =
      Keeps-if (is_reversal tx.kind)
        (process_reversal-Keeps tx c tx.reference_external_transaction_id)
        (after_reference-Keeps tx c none)

  balance_or_current-Keeps :
      {P : Db → Type 0} (tx : Transaction) (e : Option LedgerEntry)
      → Keeps P (balance_or_current env tx e)
  unfolding balance_or_current
  balance_or_current-Keeps tx (some e) = Keeps-pure _
  balance_or_current-Keeps tx none = Keeps-bind (find_wallet-Keeps _ _) λ w. Keeps-pure _

  -- A replay keeps whatever the tables are: it only reads.
  pub replay-Keeps :
      {P : Db → Type 0} (existing candidate : Transaction) → Keeps P (replay env existing candidate)
  unfolding replay
  replay-Keeps existing candidate = Keeps-if _ (Keeps-raise _) (
      Keeps-bind
        (Keeps-bind (Keeps-attempt (find_ledger_entry-Keeps _ _)) λ found.
          Keeps-bind (entry_or_nil-Keeps found) λ entry. balance_or_current-Keeps existing entry)
        λ balance. Keeps-pure _)

  conclude-Keeps :
      {P : Db → Type 0} (candidate : Transaction) (r : Result _)
      → Keeps P (conclude env candidate r)
  unfolding conclude
  conclude-Keeps candidate (ok r) = Keeps-pure _
  conclude-Keeps candidate (err (Error.app AppError.wager_transaction_already_exists)) =
      Keeps-bind (find_by_key-Keeps _ _ _) λ winner. replay-Keeps winner candidate
  conclude-Keeps candidate (err e) = Keeps-raise e

  submit_candidate-Keeps :
      (candidate : Transaction) (c : String) (existing : Option Transaction)
      → Keeps (On Reconciled) (submit_candidate env candidate c existing)
  unfolding submit_candidate
  submit_candidate-Keeps candidate c (some existing) = replay-Keeps existing candidate
  submit_candidate-Keeps candidate c none =
      Keeps-bind (Keeps-attempt (process-Keeps candidate c))
        λ outcome. conclude-Keeps candidate outcome

  pub submit-Keeps : (input : SubmitInput) → Keeps (On Reconciled) (submit env input)
  unfolding submit
  submit-Keeps input = Keeps-bind (Keeps-read_clock _) λ now. Keeps-bind (Keeps-draw_uuid _) λ id.
      Keeps-bind-lift _ λ candidate _. Keeps-bind (Keeps-attempt (find_by_key-Keeps _ _ _)) λ found.
        Keeps-bind (wager_or_nil-Keeps found)
          λ existing. submit_candidate-Keeps candidate input.correlation_id existing

  -- From right books every submission, accepted, rejected, replayed or failed at any database call,
  -- leaves right books: the ledger of every wallet adds up to its stored balance. And it leaves no
  -- transaction open.
  pub submit-Reconciled :
      (input : SubmitInput) (w : World)
      → w.session ≡ idle
      → Reconciled w.db.wallets w.db.ledger
      → let w' = (submit env input w).1 in
        Reconciled w'.db.wallets w'.db.ledger × (w'.session ≡ idle)
  submit-Reconciled input w i p = let (q, j) = (submit-Keeps input).at w i p in (q, j)
