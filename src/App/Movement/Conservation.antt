-- ===== src/App/Movement/Conservation.antt =====
-- A submission keeps the books: in every wallet the ledger adds up to the stored balance.
use croupier.Prelude.{
  String, ap, sym, ◌∙◌, ◌≡◌, refl, Bool, true, ◌==◌, Option, none, some, List, [], ◌∷◌, ◌++◌,
  if◌then◌else◌, Bool-cases, inl, inr, ==_eq,
}
use croupier.Prelude.Int.{ℤ, ◌+ℤ◌, ◌-ℤ◌, int_laws, eq_of_parts}
use croupier.Errors.{Error, AppError, WalletError, Result, ok, err}
use croupier.Values.{Uuid}
use croupier.Wallet.{Wallet}
use croupier.Wallet.Ledger.{LedgerEntry, Direction, debit, credit, other}
use croupier.Wallet.Balance.{new_ledger_entry_lem, id-debit, id-credit}
use croupier.Store.Tables.{Db, WalletRow, LedgerRow}
use croupier.Store.Wallets.{wallet_row, upsert_wallet, find_wallet}
use croupier.Store.Wagers.{find_reversal}
use croupier.Store.Entries.{ledger_row, is_consistent}
use croupier.Store.Books.{net, stored, net-append, stored-upsert, stored-select, signed_amount}
use croupier.Store.Books.Writes.{BookPred, On}
use croupier.Store.Rules.{Ensures, Ensures-pure, Ensures-raise, Ensures-attempt-query}
use croupier.Wager.{Transaction}
use croupier.App.Env.{Env}
use croupier.App.Events.Frame.{
  processed_event-Keeps, rejected_event-Keeps, balance_changed_event-Keeps,
}
use croupier.Store.Keeps.{
  Keeps, Inside-keeps, Keeps-pure, Keeps-raise, Keeps-query, Keeps-read_clock, Keeps-attempt,
  Keeps-bind, Keeps-bind-lift,
}
use croupier.Store.Inside.{
  Inside, Inside-bind, Inside-bind-lift, Inside-pure, Inside-raise, Inside-query, Inside-weaken,
  Inside-read_clock, Inside-draw_uuid,
}
use croupier.Store.Books.Inside.{
  Keeps-save_wager, Keeps-save_all, Inside-save_wallet, Inside-save_wager, Inside-save_all,
  Inside-save_ledger_entry,
}
use croupier.App.Movement.{
  record_movement, reject_in_tx, settle, move_balance, reject_duplicate, check_duplicate, movement,
  wager_or_nil,
}
use croupier.Money.{Money}
use croupier.Store.Monad.{App, attempt}

-- The ledger of every wallet adds up to its stored balance.
abbrev pub Reconciled : BookPred
Reconciled ws ls = (id : Uuid) → net id ls ≡ stored id ws

-- ... and the row of `w` holds the balance of `w`
abbrev pub At : Wallet → BookPred
At w ws ls = Reconciled ws ls × (stored w.id ws ≡ w.balance.amount)

-- the row of `w` has been moved on to `w'`, and the ledger not yet
abbrev pub Between : Wallet → Wallet → BookPred
Between w w' ws ls =
    ((id : Uuid) → stored id ws ≡ (if w'.id == id then w'.balance.amount else net id ls))
    × (net w'.id ls ≡ w.balance.amount)

pub wallet_moved :
    (w w' : Wallet)
    → w'.id ≡ w.id
    → (ws ws' : List WalletRow) (ls : List LedgerRow) → upsert_wallet (wallet_row w') ws ≡ ok ws'
    → At w ws ls
    → Between w w' ws' ls
wallet_moved w w' same ws ws' ls upserted (books, at) = (
  λ id. rw (stored-upsert (wallet_row w') ws upserted id, books id) refl,
  rw same (books w.id ∙ at),
)

consistent_amount :
    (d : Direction) (a b c : ℤ) → is_consistent d a b c ≡ true → b +ℤ signed_amount d a ≡ c
consistent_amount debit a b c h =
    let e : c ≡ b -ℤ a = eq_of_parts c (b -ℤ a) (==_eq _ _ h) in rw e (omega int_laws)
consistent_amount credit a b c h = sym (eq_of_parts c (b +ℤ a) (==_eq _ _ h))
consistent_amount (other s) a b c h = cc

module _ (w w' : Wallet) (e : LedgerEntry) (of_wallet : e.wallet_id ≡ w'.id)
    (from : e.balance_before ≡ w.balance) (to : e.balance_after ≡ w'.balance)
    (consistent : is_consistent e.direction e.amount.amount e.balance_before.amount
        e.balance_after.amount
      ≡ true) where
  arrived : w.balance.amount +ℤ signed_amount e.direction e.amount.amount ≡ w'.balance.amount
  arrived =
      let h =
        consistent_amount e.direction e.amount.amount e.balance_before.amount e.balance_after.amount
          consistent in
      cc (h, from, to)

  pub entry_recorded :
      (ws : List WalletRow) (ls : List LedgerRow)
      → Between w w' ws ls
      → Reconciled ws (ls ++ ledger_row e ∷ [])
  entry_recorded ws ls (held, before) id = elim (Bool-cases (w'.id == id)) [
    | inl same ↦ rw (net-append, held, of_wallet, same, sym (==_eq w'.id id same), before) arrived
    | inr different ↦ rw (net-append, held, of_wallet, different) (omega int_laws)
  ]

find_wallet-At :
    (parse_iso : String → Bool) (id : Uuid)
    → Inside (On Reconciled) (On Reconciled) (find_wallet parse_iso id) (λ w. On (At w))
unfolding find_wallet
find_wallet-At parse_iso id =
    Inside-query _ (λ db b. b) (λ w db e b. (b, stored-select parse_iso id db e))

pub find_reversal-Ensures :
    (B : BookPred) (parse_iso : String → Bool) (id : Uuid)
    → Ensures (On B) (attempt (find_reversal parse_iso id)) (λ _. On B)
unfolding find_reversal
find_reversal-Ensures B parse_iso id = Ensures-attempt-query _ (λ r db e b. b) (λ e db f b. b)

find_reversal-Keeps :
    (B : BookPred) (parse_iso : String → Bool) (id : Uuid)
    → Keeps (On B) (find_reversal parse_iso id)
unfolding find_reversal
find_reversal-Keeps B parse_iso id = Keeps-query _

pub wager_or_nil-Ensures :
    {P : Db → Type 0} (r : Result Transaction) → Ensures P (wager_or_nil r) (λ _. P)
wager_or_nil-Ensures (ok tx) = Ensures-pure _ (λ db b. b)
wager_or_nil-Ensures (err (Error.app AppError.wager_transaction_not_found)) =
    Ensures-pure _ (λ db b. b)
wager_or_nil-Ensures (err e) = Ensures-raise e

pub wager_or_nil-Keeps : {P : Db → Type 0} (r : Result Transaction) → Keeps P (wager_or_nil r)
wager_or_nil-Keeps (ok tx) = Keeps-pure _
wager_or_nil-Keeps (err (Error.app AppError.wager_transaction_not_found)) = Keeps-pure _
wager_or_nil-Keeps (err e) = Keeps-raise e

at_books : (w : Wallet) (db : Db) → On (At w) db → On Reconciled db
at_books w db b = b.0

-- what keeps the books and the row of `w`, inside the transaction
held_at :
    {A : Type 0} {m : App A} (w : Wallet)
    → Keeps (On (At w)) m
    → Inside (On Reconciled) (On (At w)) m (λ _. On (At w))
held_at w k = Inside-keeps (at_books w) k

module _ (env : Env) (tx : Transaction) (correlation_id : String) where
  -- An error before the first write leaves right books, and one of a write aborts the transaction.
  record_movement-Reconciled :
      (d : Direction) (w w' : Wallet)
      → w'.id ≡ w.id
      → Inside
          (On Reconciled)
          (On (At w))
          (record_movement env tx correlation_id d w w')
          (λ _. On Reconciled)
  unfolding record_movement
  record_movement-Reconciled d w w' same = Inside-bind (Inside-read_clock env.clock) λ created_at.
      Inside-bind (Inside-draw_uuid env.new_uuid) λ entry_id.
        Inside-bind-lift _ (at_books w) λ entry made.
          Inside-bind (Inside-read_clock env.clock) λ now.
            Inside-bind-lift _ (at_books w) λ processed marked.
              Inside-bind (held_at w (processed_event-Keeps env processed correlation_id))
                λ processed_event.
                  Inside-bind
                    (held_at w (balance_changed_event-Keeps env w' entry correlation_id _))
                    λ balance_changed.
                      Inside-bind (Inside-save_wager (At w) _ env.digest processed) λ _.
                        Inside-bind
                          (Inside-save_wallet _ (At w) (Between w w') w' (wallet_moved w w' same))
                          λ _.
                            let e = new_ledger_entry_lem entry_id created_at _ made in
                            Inside-bind
                              (Inside-save_ledger_entry _ (Between w w') Reconciled entry (
                                entry_recorded w w' entry (ap (λ x. x.wallet_id) e)
                                  (ap (λ x. x.balance_before) e) (ap (λ x. x.balance_after) e)))
                              λ _.
                                Inside-bind (Inside-save_all Reconciled _ _)
                                  λ _. Inside-pure _ (λ db b. b)

  reject_in_tx-Keeps :
      (B : BookPred) (code : String) (w : Wallet)
      → Keeps (On B) (reject_in_tx env tx code correlation_id w)
  unfolding reject_in_tx
  reject_in_tx-Keeps B code w = Keeps-bind (Keeps-read_clock env.clock) λ now.
      Keeps-bind-lift _ λ rejected _.
        Keeps-bind (rejected_event-Keeps env rejected correlation_id) λ event.
          Keeps-bind (Keeps-save_wager B env.digest rejected)
            λ _. Keeps-bind (Keeps-save_all B _) λ _. Keeps-pure _

  reject_at :
      (code : String) (w : Wallet)
      → Inside
          (On Reconciled)
          (On (At w))
          (reject_in_tx env tx code correlation_id w)
          (λ _. On Reconciled)
  reject_at code w =
      Inside-weaken _ (reject_in_tx-Keeps Reconciled code w).inside (λ db b. b) (at_books w)
        (λ r db b. b)

  settle-Reconciled :
      (d : Direction) (w : Wallet) (r : Result Wallet)
      → ((w' : Wallet) → r ≡ ok w' → w'.id ≡ w.id)
      → Inside (On Reconciled) (On (At w)) (settle env tx correlation_id d w r) (λ _. On Reconciled)
  unfolding settle
  settle-Reconciled d w (ok w') h = record_movement-Reconciled d w w' (h w' refl)
  settle-Reconciled d w (err (Error.wallet WalletError.insufficient_balance)) h = reject_at _ w
  settle-Reconciled d w (err e) h = Inside-raise e (at_books w)

  pub id-move_balance :
      (d : Direction) (w w' : Wallet) (amount : Money)
      → move_balance env d w amount ≡ ok w'
      → w'.id ≡ w.id
  unfolding move_balance
  id-move_balance debit w w' amount h = id-debit w amount h
  id-move_balance credit w w' amount h = id-credit w amount h
  id-move_balance (other s) w w' amount h = id-credit w amount h

  settle_moved :
      (d : Direction) (w : Wallet)
      → Inside
          (On Reconciled)
          (On (At w))
          (settle env tx correlation_id d w (move_balance env d w tx.amount))
          (λ _. On Reconciled)
  settle_moved d w = settle-Reconciled d w _ (λ w' e. id-move_balance d w w' tx.amount e)

  reject_duplicate-Reconciled :
      (d : Direction) (w : Wallet) (duplicate : Option Transaction)
      → Inside
          (On Reconciled)
          (On (At w))
          (reject_duplicate env tx correlation_id d w duplicate)
          (λ _. On Reconciled)
  unfolding reject_duplicate
  reject_duplicate-Reconciled d w none = settle_moved d w
  reject_duplicate-Reconciled d w (some duplicate) = reject_at _ w

  check_duplicate-Reconciled :
      (d : Direction) (w : Wallet) (referenced : Option Transaction)
      → Inside
          (On Reconciled)
          (On (At w))
          (check_duplicate env tx correlation_id d w referenced)
          (λ _. On Reconciled)
  unfolding check_duplicate
  check_duplicate-Reconciled d w none = settle_moved d w
  check_duplicate-Reconciled d w (some referenced) =
      Inside-bind
        (held_at w (Keeps-attempt (find_reversal-Keeps (At w) env.parse_iso referenced.id)))
        λ found.
          Inside-bind (held_at w (wager_or_nil-Keeps found))
            λ duplicate. reject_duplicate-Reconciled d w duplicate

  -- The body of the transaction keeps the books, whichever branch it takes.
  pub movement-Reconciled :
      (d : Direction) (referenced : Option Transaction)
      → Inside
          (On Reconciled)
          (On Reconciled)
          (movement env tx correlation_id d referenced)
          (λ _. On Reconciled)
  unfolding movement
  movement-Reconciled d referenced =
      Inside-bind (find_wallet-At env.parse_iso tx.wallet_id)
        λ w. check_duplicate-Reconciled d w referenced
