-- ===== src/Store/Books/Inside.antt =====
-- The writes of the repositories inside a transaction, by what they do to the wallets and the ledger.
use croupier.Prelude.{◌≡◌, sym, true, List, [], ◌∷◌, ◌++◌}
use mathlib.Core.Path.{subst}
use croupier.Errors.{ok}
use croupier.Values.{Digest}
use croupier.Wallet.{Wallet}
use croupier.Wallet.Ledger.{LedgerEntry}
use croupier.Wager.{Transaction, HashInput}
use croupier.Outbox.{Entry}
use croupier.Store.Tables.{Db, WalletRow, LedgerRow}
use croupier.Store.Inside.{Inside, Inside-pure, Inside-exec, Inside-bind}
use croupier.Store.Keeps.{Keeps, Keeps-exec, Keeps-pure, Keeps-bind}
use croupier.Store.Wallets.{wallet_row, upsert_wallet, store_wallet, save_wallet}
use croupier.Store.Entries.{ledger_row, is_consistent, store_ledger_entry, save_ledger_entry}
use croupier.Store.Wagers.{store_wager, save_wager}
use croupier.Store.Outbox.{save_all}
use croupier.Store.Books.Writes.{BookPred, On, stored_wallet, row_stored, wager_stored, ok_written}

module _ (R : Db → Type 0) (B C : BookPred) where
  pub Inside-save_wallet :
      (w : Wallet)
      → ((ws ws' : List WalletRow) (ls : List LedgerRow)
          → upsert_wallet (wallet_row w) ws ≡ ok ws'
          → B ws ls
          → C ws' ls)
      → Inside R (On B) (save_wallet w) (λ _. On C)
  unfolding save_wallet
  Inside-save_wallet w h = Inside-exec (store_wallet w) (stored_wallet B C w h)

  pub Inside-save_ledger_entry :
      (e : LedgerEntry)
      → (is_consistent e.direction e.amount.amount e.balance_before.amount e.balance_after.amount
            ≡ true
          → (ws : List WalletRow) (ls : List LedgerRow) → B ws ls
          → C ws (ls ++ ledger_row e ∷ []))
      → Inside R (On B) (save_ledger_entry e) (λ _. On C)
  unfolding save_ledger_entry
  Inside-save_ledger_entry e h = Inside-exec (store_ledger_entry e) (λ db db' stored b.
      let (consistent, same) = row_stored B C e db stored in
      subst (On C) (sym same) (h consistent db.wallets db.ledger b))

module _ (B : BookPred) where
  pub Keeps-save_wager :
      (digest : HashInput → Digest) (tx : Transaction) → Keeps (On B) (save_wager digest tx)
  unfolding save_wager
  Keeps-save_wager digest tx = Keeps-exec (store_wager digest tx) (wager_stored B digest tx)

  pub Keeps-save_all : (es : List Entry) → Keeps (On B) (save_all es)
  unfolding save_all
  Keeps-save_all [] = Keeps-pure tt
  Keeps-save_all (e ∷ es) =
      Keeps-bind (Keeps-exec _ (λ db db' same b. ok_written B same b)) (λ _. Keeps-save_all es)

  module _ (R : Db → Type 0) where
    pub Inside-save_wager :
        (digest : HashInput → Digest) (tx : Transaction)
        → Inside R (On B) (save_wager digest tx) (λ _. On B)
    unfolding save_wager
    Inside-save_wager digest tx = Inside-exec (store_wager digest tx) (wager_stored B digest tx)

    pub Inside-save_all : (es : List Entry) → Inside R (On B) (save_all es) (λ _. On B)
    unfolding save_all
    Inside-save_all [] = Inside-pure tt (λ db b. b)
    Inside-save_all (e ∷ es) =
        Inside-bind (Inside-exec _ (λ db db' same b. ok_written B same b)) (λ _. Inside-save_all es)
