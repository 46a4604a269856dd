-- ===== src/Store/Books/Writes.antt =====
-- How the writes of the repositories change the wallets and the ledger, and that no other write
-- touches the two.
use mathlib.Core.Path.{subst}
use croupier.Prelude.{◌≡◌, sym, true, List, [], ◌∷◌, ◌++◌, arith}
use croupier.Errors.{Result, ok, >>=-eq-ok, ok_injective}
use croupier.Values.{Digest}
use croupier.Wallet.{Wallet}
use croupier.Wallet.Ledger.{LedgerEntry}
use croupier.Wager.{Transaction, HashInput}
use croupier.Outbox.{Entry}
use croupier.Store.Tables.{Db, WalletRow, LedgerRow}
use croupier.Store.Monad.{query}
use croupier.Store.Rules.{Ensures, Ensures-pure, Ensures-exec, Ensures-bind, Ensures-query}
use croupier.Store.Wallets.{wallet_row, upsert_wallet, store_wallet, save_wallet}
use croupier.Store.Entries.{ledger_row, is_consistent, store_ledger_entry, save_ledger_entry}
use croupier.Store.Wagers.{wager_row, upsert_wager, store_wager, save_wager}
use croupier.Store.Outbox.{save_all}

-- an assertion about the wallets and the ledger, whatever the other tables hold
abbrev pub BookPred : Type 1
BookPred = List WalletRow → List LedgerRow → Type 0

abbrev pub On : BookPred → Db → Type 0
On B db = B db.wallets db.ledger

module _ (B C : BookPred) where
  pub stored_wallet :
      (w : Wallet)
      → ((ws ws' : List WalletRow) (ls : List LedgerRow)
          → upsert_wallet (wallet_row w) ws ≡ ok ws'
          → B ws ls
          → C ws' ls)
      → (db db' : Db) → store_wallet w db ≡ ok db'
      → On B db
      → On C db'
  stored_wallet w h db db' e b =
      let (ws', upserted, same) =
        >>=-eq-ok (upsert_wallet (wallet_row w) db.wallets) (λ ws. ok (record db { wallets = ws }))
          e in
      subst (On C) {x = record db { wallets = ws' }} (ok_injective same)
        (h db.wallets ws' db.ledger upserted b)

  pub Ensures-save_wallet :
      (w : Wallet)
      → ((ws ws' : List WalletRow) (ls : List LedgerRow)
          → upsert_wallet (wallet_row w) ws ≡ ok ws'
          → B ws ls
          → C ws' ls)
      → Ensures (On B) (save_wallet w) (λ _. On C)
  unfolding save_wallet
  Ensures-save_wallet w h = Ensures-exec (store_wallet w) (stored_wallet w h)

  pub row_stored :
      (e : LedgerEntry) (db : Db) {db' : Db}
      → store_ledger_entry e db ≡ ok db'
      → (is_consistent e.direction e.amount.amount e.balance_before.amount e.balance_after.amount
          ≡ true)
        × (db' ≡ record db { ledger = db.ledger ++ ledger_row e ∷ [] })
  unfolding store_ledger_entry
  row_stored e db h = ground arith

  pub Ensures-save_ledger_entry :
      (e : LedgerEntry)
      → (is_consistent e.direction e.amount.amount e.balance_before.amount e.balance_after.amount
            ≡ true
          → (ws : List WalletRow) (ls : List LedgerRow) → B ws ls
          → C ws (ls ++ ledger_row e ∷ []))
      → Ensures (On B) (save_ledger_entry e) (λ _. On C)
  unfolding save_ledger_entry
  Ensures-save_ledger_entry e h = Ensures-exec (store_ledger_entry e) (λ db db' stored b.
      let (consistent, same) = row_stored e db stored in
      subst (On C) (sym same) (h consistent db.wallets db.ledger b))

module _ (B : BookPred) where
  pub wager_stored :
      (digest : HashInput → Digest) (tx : Transaction) (db db' : Db)
      → store_wager digest tx db ≡ ok db'
      → On B db
      → On B db'
  wager_stored digest tx db db' e b =
      let (rs, upserted, same) =
        >>=-eq-ok (upsert_wager (wager_row digest tx) db.wallets db.wagers)
          (λ rs. ok (record db { wagers = rs })) e in
      subst (On B) {x = record db { wagers = rs }} (ok_injective same) b

  pub Ensures-save_wager :
      (digest : HashInput → Digest) (tx : Transaction)
      → Ensures (On B) (save_wager digest tx) (λ _. On B)
  unfolding save_wager
  Ensures-save_wager digest tx = Ensures-exec (store_wager digest tx) (wager_stored digest tx)

  pub Ensures-save_all : (es : List Entry) → Ensures (On B) (save_all es) (λ _. On B)
  unfolding save_all
  Ensures-save_all [] = Ensures-pure tt (λ db b. b)
  Ensures-save_all (e ∷ es) =
      Ensures-bind (Ensures-exec _ (λ db db' same b. subst (On B) (ok_injective same) b))
        (λ _. Ensures-save_all es)

  pub Ensures-read : {A : Type 0} (f : Db → Result A) → Ensures (On B) (query f) (λ _. On B)
  Ensures-read f = Ensures-query f (λ a db e b. b)

pub ok_written : (B : BookPred) {db db' : Db} → ok db ≡ ok db' → On B db → On B db'
ok_written B e b = subst (On B) (ok_injective e) b
