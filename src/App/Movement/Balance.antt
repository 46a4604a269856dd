-- ===== src/App/Movement/Balance.antt =====
-- internal/app/wager_submit.go: the balance that a movement answers with.
use mathlib.Core.Path.{subst}
use croupier.Prelude.{
  String, ◌≡◌, refl, arith, Bool, ==_eq, ==_refl, find-holds, Option-cases, Option, some, none, inl,
  inr, List, ◌==◌,
}
use croupier.Errors.{Error, WalletError, Result, ok, err}
use croupier.Values.{Uuid}
use croupier.Money.{Money, from_minor_units}
use croupier.Wager.{Transaction}
use croupier.Wallet.{Wallet}
use croupier.Wallet.Ledger.{Direction}
use croupier.Store.Tables.{Db, WalletRow, LedgerRow}
use croupier.Store.Monad.{World}
use croupier.Store.Rules.{
  Ensures, After, Ensures-bind, Ensures-bind-lift, Ensures-pure, Ensures-raise, Ensures-query,
  Ensures-given, Ensures-weaken, Ensures-read_clock, Ensures-draw_uuid,
}
use croupier.Store.Wallets.{
  find_wallet, select_wallet, scan_wallet, wallet_with_id, wallet_row, upsert_wallet,
}
use croupier.Store.Books.{stored, stored-upsert, stored-select}
use croupier.Store.Books.Writes.{
  BookPred, On, Ensures-save_wallet, Ensures-save_ledger_entry, Ensures-save_wager,
  Ensures-save_all,
}
use croupier.App.Env.{Env}
use croupier.App.Events.Frame.{
  rejected_event-Ensures, processed_event-Ensures, balance_changed_event-Ensures,
}
use croupier.App.Movement.{
  SubmitResult, movement, check_duplicate, reject_duplicate, reject_in_tx, record_movement, settle,
  move_balance,
}
use croupier.App.Movement.Conservation.{
  find_reversal-Ensures, wager_or_nil-Ensures, id-move_balance,
}

-- the row of the wallet holds the balance
abbrev Holds : Uuid → Money → BookPred
Holds id b ws ls = stored id ws ≡ b.amount

abbrev pub AnswersWith : Uuid → SubmitResult → Db → Type 0
AnswersWith id r db = stored id db.wallets ≡ r.balance.amount

selected_id :
    (parse_iso : String → Bool) (id : Uuid) (db : Db) {w : Wallet}
    → select_wallet parse_iso id db ≡ ok w
    → w.id ≡ id
unfolding scan_wallet from_minor_units
selected_id parse_iso id db h = elim (Option-cases (wallet_with_id id db.wallets)) [
  | inl e ↦ ground arith
  | inr (r, e) ↦
      let same : r.id ≡ id =
        ==_eq r.id id (find-holds (λ (r : WalletRow). r.id == id) db.wallets e) in
      ground (arith, same)
]

module _ (env : Env) (tx : Transaction) (correlation_id : String) where
  saved_balance :
      (w : Wallet) (b : Money) (ws ws' : List WalletRow) (ls : List LedgerRow)
      → upsert_wallet (wallet_row w) ws ≡ ok ws'
      → Holds w.id b ws ls
      → Holds w.id w.balance ws' ls
  saved_balance w b ws ws' ls h holds =
      rw (stored-upsert (wallet_row w) ws h w.id, ==_refl w.id) refl

  rejected_answer :
      (code : String) (w : Wallet)
      → Ensures
          (On (Holds w.id w.balance))
          (reject_in_tx env tx code correlation_id w)
          (AnswersWith w.id)
  unfolding reject_in_tx
  rejected_answer code w = Ensures-bind (Ensures-read_clock env.clock) λ now.
      Ensures-bind-lift _ λ tx' marked.
        Ensures-bind (rejected_event-Ensures env tx' correlation_id) λ event.
          Ensures-bind (Ensures-save_wager (Holds w.id w.balance) env.digest tx') λ _.
            Ensures-bind (Ensures-save_all (Holds w.id w.balance) _) λ _. Ensures-pure _ (λ db b. b)

  moved_answer :
      (d : Direction) (w w' : Wallet)
      → Ensures
          (On (Holds w'.id w.balance))
          (record_movement env tx correlation_id d w w')
          (AnswersWith w'.id)
  unfolding record_movement
  moved_answer d w w' = Ensures-bind (Ensures-read_clock env.clock) λ created_at.
      Ensures-bind (Ensures-draw_uuid env.new_uuid) λ entry_id. Ensures-bind-lift _ λ entry made.
        Ensures-bind (Ensures-read_clock env.clock) λ now. Ensures-bind-lift _ λ processed marked.
          Ensures-bind (processed_event-Ensures env processed correlation_id) λ processed_event.
            Ensures-bind (balance_changed_event-Ensures env w' entry correlation_id _)
              λ balance_changed.
                Ensures-bind (Ensures-save_wager (Holds w'.id w.balance) env.digest processed) λ _.
                  Ensures-bind
                    (Ensures-save_wallet (Holds w'.id w.balance) (Holds w'.id w'.balance) w'
                      (saved_balance w' w.balance))
                    λ _.
                      Ensures-bind
                        (Ensures-save_ledger_entry (Holds w'.id w'.balance) (Holds w'.id w'.balance)
                          entry (λ _ ws ls h. h))
                        λ _.
                          Ensures-bind (Ensures-save_all (Holds w'.id w'.balance) _)
                            λ _. Ensures-pure _ (λ db b. b)

  settled_answer :
      (d : Direction) (w : Wallet) (r : Result Wallet)
      → ((w' : Wallet) → r ≡ ok w' → w'.id ≡ w.id)
      → Ensures (On (Holds w.id w.balance)) (settle env tx correlation_id d w r) (AnswersWith w.id)
  unfolding settle
  settled_answer d w (ok w') h =
      subst
        (λ i.
          Ensures (On (Holds i w.balance)) (record_movement env tx correlation_id d w w')
            (AnswersWith i))
        (h w' refl) (moved_answer d w w')
  settled_answer d w (err (Error.wallet WalletError.insufficient_balance)) h = rejected_answer _ w
  settled_answer d w (err e) h = Ensures-raise e

  settle_answer :
      (d : Direction) (w : Wallet)
      → Ensures
          (On (Holds w.id w.balance))
          (settle env tx correlation_id d w (move_balance env d w tx.amount))
          (AnswersWith w.id)
  settle_answer d w =
      settled_answer d w _ (λ w' e. id-move_balance env tx correlation_id d w w' tx.amount e)

  duplicate_answer :
      (d : Direction) (w : Wallet) (o : Option Transaction)
      → Ensures
          (On (Holds w.id w.balance))
          (reject_duplicate env tx correlation_id d w o)
          (AnswersWith w.id)
  unfolding reject_duplicate
  duplicate_answer d w none = settle_answer d w
  duplicate_answer d w (some t) = rejected_answer _ w

  checked_answer :
      (d : Direction) (w : Wallet) (o : Option Transaction)
      → Ensures
          (On (Holds w.id w.balance))
          (check_duplicate env tx correlation_id d w o)
          (AnswersWith w.id)
  unfolding check_duplicate
  checked_answer d w none = settle_answer d w
  checked_answer d w (some t) =
      Ensures-bind (find_reversal-Ensures (Holds w.id w.balance) env.parse_iso t.id)
        λ found. Ensures-bind (wager_or_nil-Ensures found) λ o. duplicate_answer d w o

  abbrev Read : Wallet → Db → Type 0
  Read w db = On (Holds w.id w.balance) db × (w.id ≡ tx.wallet_id)

  holds_of : (w : Wallet) (db : Db) → Read w db → On (Holds w.id w.balance) db
  holds_of w db (h, _) = h

  answer_of :
      (w : Wallet) (d : Direction) (o : Option Transaction) (db : Db)
      → Read w db
      → Ensures (Read w) (check_duplicate env tx correlation_id d w o) (AnswersWith tx.wallet_id)
  answer_of w d o db (_, same) =
      Ensures-weaken _ (checked_answer d w o) (λ db' r. holds_of w db' r)
        (λ r db' a. subst (λ i. AnswersWith i r db') same a)

  answer :
      (d : Direction) (o : Option Transaction)
      → Ensures (λ db. Unit {0}) (movement env tx correlation_id d o) (AnswersWith tx.wallet_id)
  unfolding movement find_wallet
  answer d o =
      Ensures-bind {Q = Read}
        (Ensures-query _ (λ w db e p. (
          stored-select env.parse_iso tx.wallet_id db e,
          selected_id env.parse_iso tx.wallet_id db e,
        )))
        λ w. Ensures-given (λ db r. answer_of w d o db r)

-- Whatever branch the transaction body of `process` takes, a movement, a rejection for a short balance
-- or for a duplicate, if it returns, the balance in its result is the one that the row of the wallet
-- then holds.
pub movement-AnswersWith :
    (env : Env) (tx : Transaction) (correlation_id : String) (d : Direction)
    (referenced : Option Transaction) (w : World)
    → After (AnswersWith tx.wallet_id) (movement env tx correlation_id d referenced w)
movement-AnswersWith env tx correlation_id d referenced w =
    (answer env tx correlation_id d referenced).at w tt
