-- ===== src/App/Movement.antt =====
-- internal/app/wager_submit.go: what a submission can end in, a movement of the wallet, a rejection, a
-- transaction that waits for its reference or one that moves nothing, with everything it saves; and
-- internal/app/failure_codes.go. A `*wager.Transaction` that the code mutates is the new transaction
-- from there on, and the one of the result.
pub mod Conservation
pub mod Balance
pub mod Duplicate
pub mod Lands
use croupier.Prelude.{
  String, Bool, true, false, not, str_eq, Option, none, some, List, [], ◌∷◌, if◌then◌else◌, ◌==◌,
}
use croupier.Errors.{
  Error, Result, ok, err, currency_mismatch, insufficient_balance, wager_transaction_not_found,
  wager_transaction_already_exists, ledger_entry_not_found, idempotency_conflict, no_movement,
}
use croupier.Values.{Uuid}
use croupier.Money.{Money}
use croupier.Wallet.{Wallet, debit, credit}
use croupier.Wallet.Ledger.{
  Direction, LedgerEntry, new_ledger_entry, debit as debit_direction, credit as credit_direction,
  other as other_direction,
}
use croupier.Wager.{
  Transaction, Kind, bet, win, loss, refund, rollback, is_loss, is_bet, is_reversal,
  is_pending_reference, NewTransactionInput, new_transaction, validate_reference, resolve_reference,
  mark_processed, mark_rejected, mark_pending_reference, payload_hash,
}
use croupier.Outbox.{Entry}
use croupier.Store.Monad.{
  App, pure, raise, lift, attempt, draw_uuid, read_clock, within_tx, ◌>>=◌, ◌>>◌,
}
use croupier.Store.Wallets.{find_wallet, save_wallet}
use croupier.Store.Entries.{find_ledger_entry, save_ledger_entry}
use croupier.Store.Wagers.{find_by_key, find_reversal, save_wager}
use croupier.Store.Outbox.{save_all}
use croupier.App.Env.{Env}
use croupier.App.Events.{
  new_processed_event, new_rejected_event, new_pending_reference_event, new_balance_changed_event,
}

-- internal/app/failure_codes.go
abbrev pub failure_insufficient_balance : String
failure_insufficient_balance = "INSUFFICIENT_BALANCE"

abbrev pub failure_reversal_exceeds_balance : String
failure_reversal_exceeds_balance = "REVERSAL_EXCEEDS_BALANCE"

abbrev pub failure_invalid_reference : String
failure_invalid_reference = "INVALID_REFERENCE"

abbrev pub failure_duplicate_reversal : String
failure_duplicate_reversal = "DUPLICATE_REVERSAL"

pub record SubmitInput : Type 0 where
  pub transaction : NewTransactionInput
  pub correlation_id : String

pub record SubmitResult : Type 0 where
  pub transaction : Transaction
  pub balance : Money
  pub idempotent_replay : Bool

-- `err != nil && !errors.Is(err, ErrWagerTransactionNotFound)` returns; not found is nil
abbrev pub wager_or_nil : Result Transaction → App (Option Transaction)
wager_or_nil (ok tx) = pure (some tx)
wager_or_nil (err (Error.app wager_transaction_not_found)) = pure none
wager_or_nil (err e) = raise e

abbrev pub entry_or_nil : Result LedgerEntry → App (Option LedgerEntry)
entry_or_nil (ok e) = pure (some e)
entry_or_nil (err (Error.app ledger_entry_not_found)) = pure none
entry_or_nil (err e) = raise e

abbrev pub first_processing : Transaction → Money → SubmitResult
first_processing tx balance = record {
  transaction = tx;
  balance = balance;
  idempotent_replay = false;
}

module _ (env : Env) where
  unfoldable pub save_event : Transaction → Entry → App (Unit {0})
  save_event tx event = do save_wager env.digest tx; save_all (event ∷ [])

  -- `saveWithEvent`
  unfoldable pub save_with_event : Transaction → Entry → App SubmitResult
  unfolding save_event
  save_with_event tx event = do
    within_tx (save_event tx event)
    w ← find_wallet env.parse_iso tx.wallet_id
    pure (first_processing tx w.balance)

  unfoldable pub announce_parked : Transaction → String → App SubmitResult
  unfolding save_with_event
  announce_parked tx correlation_id = do
    event ← new_pending_reference_event env tx correlation_id
    save_with_event tx event

  unfoldable pub still_parked : Transaction → App SubmitResult
  still_parked tx = do
    w ← find_wallet env.parse_iso tx.wallet_id
    pure (first_processing tx w.balance)

  -- `parkPendingReference`
  unfoldable pub park_pending_reference : Transaction → String → App SubmitResult
  unfolding still_parked announce_parked
  park_pending_reference tx correlation_id = do
    now ← read_clock env.clock
    parked ← lift (mark_pending_reference now tx)
    if is_pending_reference tx.status
        then still_parked parked
        else announce_parked parked correlation_id

  -- `reject`
  unfoldable pub reject : Transaction → String → String → App SubmitResult
  unfolding save_with_event
  reject tx code correlation_id = do
    now ← read_clock env.clock
    rejected ← lift (mark_rejected now tx code)
    event ← new_rejected_event env rejected correlation_id
    save_with_event rejected event

  unfoldable pub processed_without_movement : Transaction → String → App SubmitResult
  unfolding save_with_event
  processed_without_movement tx correlation_id = do
    now ← read_clock env.clock
    processed ← lift (mark_processed now tx)
    event ← new_processed_event env processed correlation_id
    save_with_event processed event

  -- `finishWithoutMovement`
  unfoldable pub finish_without_movement : Transaction → String → App SubmitResult
  unfolding processed_without_movement
  finish_without_movement tx correlation_id = do
    w ← find_wallet env.parse_iso tx.wallet_id
    let same = str_eq tx.amount.currency w.balance.currency
    if not same
        then raise (Error.money currency_mismatch)
        else processed_without_movement tx correlation_id

  -- the rejections inside the transaction, for a duplicate and for a short balance
  reject_in_tx : Transaction → String → String → Wallet → App SubmitResult
  reject_in_tx tx code correlation_id w = do
    now ← read_clock env.clock
    rejected ← lift (mark_rejected now tx code)
    event ← new_rejected_event env rejected correlation_id
    save_wager env.digest rejected
    save_all (event ∷ [])
    pure (first_processing rejected w.balance)

  -- the writes of a movement from `w` to `w'`
  unfoldable pub record_movement :
      Transaction → String → Direction → Wallet → Wallet → App SubmitResult
  record_movement tx correlation_id direction w w' = do
    created_at ← read_clock env.clock
    entry_id ← draw_uuid env.new_uuid
    entry ← lift (
        new_ledger_entry entry_id created_at (record {
          wallet_id = w'.id;
          transaction_id = tx.id;
          direction = direction;
          amount = tx.amount;
          balance_before = w.balance;
          balance_after = w'.balance;
        }))
    now ← read_clock env.clock
    processed ← lift (mark_processed now tx)
    processed_event ← new_processed_event env processed correlation_id
    balance_changed ←
        new_balance_changed_event env w' entry correlation_id
          (some (env.uuid_text processed_event.id))
    save_wager env.digest processed
    save_wallet w'
    save_ledger_entry entry
    save_all (processed_event ∷ balance_changed ∷ [])
    pure (first_processing processed w'.balance)

  -- `if direction == wallet.DirectionDebit { w.Debit } else { w.Credit }`
  unfoldable pub move_balance : Direction → Wallet → Money → Result Wallet
  move_balance debit_direction w amount = debit w amount
  move_balance credit_direction w amount = credit w amount
  move_balance (other_direction s) w amount = credit w amount

  -- the branches behind the movement
  unfoldable pub settle :
      Transaction → String → Direction → Wallet → Result Wallet → App SubmitResult
  unfolding record_movement reject_in_tx
  settle tx correlation_id direction w (ok w') = record_movement tx correlation_id direction w w'
  settle tx correlation_id direction w (err (Error.wallet insufficient_balance)) =
      reject_in_tx tx
        (if is_bet tx.kind then failure_insufficient_balance else failure_reversal_exceeds_balance)
        correlation_id w
  settle tx correlation_id direction w (err e) = raise e

  reject_duplicate :
      Transaction → String → Direction → Wallet → Option Transaction → App SubmitResult
  unfolding settle
  reject_duplicate tx correlation_id direction w (some duplicate) =
      reject_in_tx tx failure_duplicate_reversal correlation_id w
  reject_duplicate tx correlation_id direction w none =
      settle tx correlation_id direction w (move_balance direction w tx.amount)

  check_duplicate :
      Transaction → String → Direction → Wallet → Option Transaction → App SubmitResult
  unfolding reject_duplicate
  check_duplicate tx correlation_id direction w none =
      settle tx correlation_id direction w (move_balance direction w tx.amount)
  check_duplicate tx correlation_id direction w (some referenced) = do
    found ← attempt (find_reversal env.parse_iso referenced.id)
    duplicate ← wager_or_nil found
    reject_duplicate tx correlation_id direction w duplicate

  -- the body of the transaction in `process`; `referenced` is nil but for a reversal
  unfoldable pub movement : Transaction → String → Direction → Option Transaction → App SubmitResult
  unfolding check_duplicate
  movement tx correlation_id direction referenced = do
    w ← find_wallet env.parse_iso tx.wallet_id
    check_duplicate tx correlation_id direction w referenced

-- the `switch` on the kind of the referenced transaction, and the fall-through to the error
abbrev reversal_direction : Option Transaction → Result Direction
reversal_direction none = err Error.nil_pointer
reversal_direction (some ref) = elim ref.kind [
  | bet ↦ ok credit_direction
  | win ↦ ok debit_direction
  | refund ↦ ok debit_direction
  | _ ↦ err (Error.app no_movement)
]

-- `movementDirection`
unfoldable pub movement_direction : Kind → Option Transaction → Result Direction
movement_direction bet referenced = ok debit_direction
movement_direction win referenced = ok credit_direction
movement_direction refund referenced = ok credit_direction
movement_direction rollback referenced = reversal_direction referenced
movement_direction _ referenced = err (Error.app no_movement)
