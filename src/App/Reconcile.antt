-- ===== src/App/Reconcile.antt =====
-- internal/app/wallet_reconcile.go: the balance of a wallet recomputed from its ledger.
pub mod Replay
pub mod Report
use croupier.Prelude.{ℕ, Bool, List, [], ◌∷◌, length}
use croupier.Errors.{Result, ok, ◌>>=◌ as then_result}
use croupier.Values.{Uuid}
use croupier.Money.{Money, add, subtract, is_zero, currency_zero}
use croupier.Wallet.{Wallet}
use croupier.Wallet.Ledger.{LedgerEntry, Direction, debit, credit, other}
use croupier.Store.Monad.{App, pure, lift, within_tx, ◌>>=◌}
use croupier.Store.Wallets.{find_wallet}
use croupier.Store.Entries.{all_ledger_entries}
use croupier.App.Env.{Env}

pub record ReconciliationResult : Type 0 where
  pub wallet_id : Uuid
  pub stored_balance : Money
  pub calculated_balance : Money
  pub difference : Money
  pub consistent : Bool
  pub entries_checked : ℕ

-- the `switch` on the direction of an entry
unfoldable pub replay_entry : Direction → Money → Money → Result Money
replay_entry credit calculated amount = add calculated amount
replay_entry debit calculated amount = subtract calculated amount
replay_entry (other s) calculated amount = ok calculated

-- the loop over the entries
unfoldable pub replay_entries : Money → List LedgerEntry → Result Money
replay_entries calculated [] = ok calculated
replay_entries calculated (e ∷ es) =
    then_result (replay_entry e.direction calculated e.amount) (λ c. replay_entries c es)

abbrev report_of : Uuid → Wallet → Money → Money → List LedgerEntry → ReconciliationResult
report_of wallet_id w calculated difference entries = record {
  wallet_id = wallet_id;
  stored_balance = w.balance;
  calculated_balance = calculated;
  difference = difference;
  consistent = is_zero difference;
  entries_checked = length entries;
}

module _ (env : Env) where
  unfoldable pub reconcile_in_tx : Uuid → App ReconciliationResult
  reconcile_in_tx wallet_id = do
    w ← find_wallet env.parse_iso wallet_id
    entries ← all_ledger_entries env.parse_iso wallet_id
    calculated ← lift (replay_entries (currency_zero w.balance.currency) entries)
    difference ← lift (subtract w.balance calculated)
    pure (report_of wallet_id w calculated difference entries)

  unfoldable pub reconcile : Uuid → App ReconciliationResult
  unfolding reconcile_in_tx
  reconcile wallet_id = within_tx (reconcile_in_tx wallet_id)
