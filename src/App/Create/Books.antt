-- ===== src/App/Create/Books.antt =====
-- internal/app/wallet_create.go: a new wallet starts with right books.
use croupier.Prelude.{◌≡◌, refl, sym, true, ◌==◌, ==_eq, Bool-cases, inl, inr, none, List, arith}
use croupier.Prelude.Int.{pos, eq_of_parts}
use croupier.Errors.{ok}
use croupier.Values.{Uuid, Time}
use croupier.Money.{Money, is_zero, currency_zero}
use croupier.Wallet.{Wallet, new}
use croupier.Wallet.Ledger.{LedgerEntry}
use croupier.Wager.{Transaction}
use croupier.Outbox.{Entry}
use croupier.Store.Tables.{WalletRow, LedgerRow}
use croupier.Store.Rules.{Ensures, Ensures-bind}
use croupier.Store.Wallets.{wallet_row, upsert_wallet, wallet_with_id}
use croupier.Store.Books.{stored, stored-upsert}
use croupier.Store.Books.Writes.{
  BookPred, On, Ensures-save_wallet, Ensures-save_wager, Ensures-save_ledger_entry,
  Ensures-save_all,
}
use croupier.App.Env.{Env}
use croupier.App.Movement.Conservation.{Reconciled, At, Between, wallet_moved, entry_recorded}
use croupier.App.Create.{CreateWalletInput, opening_writes}

-- no row has the id
abbrev pub Free : Uuid → BookPred
Free id ws ls = Reconciled ws ls × (wallet_with_id id ws ≡ none)

-- `w` as it is before it holds anything
abbrev pub emptied : Wallet → Wallet
emptied w = record w { balance = currency_zero w.balance.currency }

stored_free : (id : Uuid) (ws : List WalletRow) → wallet_with_id id ws ≡ none → stored id ws ≡ pos 0
unfolding stored
stored_free id ws h = rw h refl

free-At :
    (w : Wallet) (ws : List WalletRow) (ls : List LedgerRow)
    → Free w.id ws ls
    → At (emptied w) ws ls
free-At w ws ls (books, free) = (books, stored_free w.id ws free)

opened :
    (w : Wallet) (ws ws' : List WalletRow) (ls : List LedgerRow)
    → upsert_wallet (wallet_row w) ws ≡ ok ws'
    → Free w.id ws ls
    → Between (emptied w) w ws' ls
opened w ws ws' ls h free = wallet_moved (emptied w) w refl ws ws' ls h (free-At w ws ls free)

pub opened_empty :
    (w : Wallet)
    → w.balance.amount ≡ pos 0
    → (ws ws' : List WalletRow) (ls : List LedgerRow) → upsert_wallet (wallet_row w) ws ≡ ok ws'
    → Free w.id ws ls
    → Reconciled ws' ls
opened_empty w zero ws ws' ls h (books, free) id = elim (Bool-cases (w.id == id)) [
  | inl same ↦
      rw (stored-upsert (wallet_row w) ws h id, same, zero, books id, sym (==_eq w.id id same))
        (stored_free w.id ws free)
  | inr other ↦ rw (stored-upsert (wallet_row w) ws h id, other) (books id)
]

module _ (env : Env) (input : CreateWalletInput) where
  pub opening_writes-Reconciled :
      (w : Wallet) (tx : Transaction) (e : LedgerEntry) (events : List Entry)
      → e.wallet_id ≡ w.id
      → e.balance_before ≡ currency_zero w.balance.currency
      → e.balance_after ≡ w.balance
      → Ensures (On (Free w.id)) (opening_writes env w tx e events) (λ _. On Reconciled)
  unfolding opening_writes
  opening_writes-Reconciled w tx e events of_wallet before after =
      Ensures-bind (Ensures-save_wallet (Free w.id) (Between (emptied w) w) w (opened w)) λ _.
        Ensures-bind (Ensures-save_wager (Between (emptied w) w) env.digest tx) λ _.
          Ensures-bind
            (Ensures-save_ledger_entry (Between (emptied w) w) Reconciled e
              (entry_recorded (emptied w) w e of_wallet before after))
            λ _. Ensures-save_all Reconciled events

  -- the balance and the id of a new wallet
  pub new_wallet :
      (id : Uuid) (now : Time) {w : Wallet}
      → new id now input.player_id input.initial_balance ≡ ok w
      → (w.id ≡ id) × (w.balance ≡ input.initial_balance)
  unfolding new
  new_wallet id now h = ground arith

  pub zero_amount : (m : Money) → is_zero m ≡ true → m.amount ≡ pos 0
  zero_amount m h = eq_of_parts m.amount (pos 0) (==_eq _ _ h)
