-- ===== src/App/Create.antt =====
-- internal/app/wallet_create.go: the creation of a wallet, with its OPENING transaction.
pub mod Books
pub mod Undone
use croupier.Prelude.{String, Option, none, some, List, [], ◌∷◌, if◌then◌else◌}
use croupier.Errors.{Error, Result, ok, err, wallet_not_found, wallet_already_exists}
use croupier.Values.{Uuid}
use croupier.Money.{Money, is_zero, currency_zero}
use croupier.Wallet.{Wallet, new}
use croupier.Wallet.Ledger.{LedgerEntry, new_ledger_entry, credit}
use croupier.Wager.{Transaction, new_opening_transaction}
use croupier.Outbox.{Entry}
use croupier.Store.Monad.{
  App, pure, raise, lift, attempt, draw_uuid, read_clock, within_tx, ◌>>=◌, ◌>>◌,
}
use croupier.Store.Wallets.{find_wallet_of, save_wallet}
use croupier.Store.Entries.{save_ledger_entry}
use croupier.Store.Wagers.{save_wager}
use croupier.Store.Outbox.{save_all}
use croupier.App.Env.{Env}
use croupier.App.Events.{new_processed_event, new_balance_changed_event}

pub record CreateWalletInput : Type 0 where
  pub player_id : Uuid
  pub initial_balance : Money
  pub correlation_id : String

abbrev pub wallet_or_nil : Result Wallet → App (Option Wallet)
wallet_or_nil (ok w) = pure (some w)
wallet_or_nil (err (Error.app wallet_not_found)) = pure none
wallet_or_nil (err e) = raise e

module _ (env : Env) where
  -- the body of the transaction
  pub opening_writes : Wallet → Transaction → LedgerEntry → List Entry → App (Unit {0})
  opening_writes w tx entry events = do
    save_wallet w
    save_wager env.digest tx
    save_ledger_entry entry
    save_all events

  create_with_opening : CreateWalletInput → Wallet → App Wallet
  unfolding opening_writes
  create_with_opening input w = do
    now ← read_clock env.clock
    id ← draw_uuid env.new_uuid
    tx ← lift (
        new_opening_transaction id now (record {
          player_id = input.player_id;
          wallet_id = w.id;
          amount = input.initial_balance;
        }))
    created_at ← read_clock env.clock
    entry_id ← draw_uuid env.new_uuid
    entry ← lift (
        new_ledger_entry entry_id created_at (record {
          wallet_id = w.id;
          transaction_id = tx.id;
          direction = credit;
          amount = input.initial_balance;
          balance_before = currency_zero input.initial_balance.currency;
          balance_after = input.initial_balance;
        }))
    processed_event ← new_processed_event env tx input.correlation_id
    balance_changed ←
        new_balance_changed_event env w entry input.correlation_id
          (some (env.uuid_text processed_event.id))
    within_tx (opening_writes w tx entry (processed_event ∷ balance_changed ∷ []))
    pure w

  create_empty : Wallet → App Wallet
  create_empty w = do save_wallet w; pure w

  create_absent : CreateWalletInput → Option Wallet → App Wallet
  unfolding create_with_opening create_empty
  create_absent input (some existing) = raise (Error.app wallet_already_exists)
  create_absent input none = do
    now ← read_clock env.clock
    id ← draw_uuid env.new_uuid
    w ← lift (new id now input.player_id input.initial_balance)
    if is_zero input.initial_balance then create_empty w else create_with_opening input w

  unfoldable pub create : CreateWalletInput → App Wallet
  unfolding create_absent
  create input = do
    found ← attempt (find_wallet_of env.parse_iso input.player_id input.initial_balance.currency)
    existing ← wallet_or_nil found
    create_absent input existing
