-- ===== src/App/Submit/Declined.antt =====
-- internal/app/wager_submit.go: a bet above the balance is rejected, and the rejection recorded.
use mathlib.Core.Path.{subst}
use croupier.Prelude.{
  ℕ, suc, ◌≡◌, refl, sym, ap, ◌∙◌, arith, true, none, [], ◌∷◌, ◌++◌, false, eq_iff,
}
use croupier.Prelude.Int.{pos, ◌<ℤ◌}
use croupier.Prelude.Int64.{IsInt64}
use croupier.Errors.{Error, Result, ok, err, insufficient_balance}
use croupier.Money.{Money}
use croupier.Wallet.{Wallet, debit}
use croupier.Wallet.Balance.{IsSolvent, debit_exact}
use croupier.Wager.{Transaction, bet, is_bet, rejected, mark_rejected}
use croupier.Outbox.{Entry}
use croupier.Store.Tables.{Db, WalletRow}
use croupier.Store.Monad.{World, Session, idle, opened}
use croupier.Store.Quiet.{
  quiet, IsLive, quiet_eta, Runs, Runs-bind, Runs-pure, Runs-lift, Runs-exec, Runs-read_clock,
}
use croupier.Store.Wagers.{wager_row, save_wager}
use croupier.Store.Outbox.{upsert_entry, store_entry, save_all}
use croupier.App.Env.{Env, rejected_data}
use croupier.App.Events.{new_rejected_event}
use croupier.App.Movement.{
  SubmitInput, SubmitResult, settle, move_balance, first_processing, failure_insufficient_balance,
}
use croupier.App.Movement.Lands.{IsEvent, Works, IsEvent-Runs}
use croupier.App.Submit.{submit}
use croupier.App.Submit.Offers.{IsOffered, wallet_of, candidate, stored_row, submit-Runs}
use croupier.App.Submit.Plays.{bet-IsPlay, direction_of}

-- the submission has been rejected for want of balance, which is recorded, and no wallet has moved
pub record IsDeclined (env : Env) (input : SubmitInput) (row : WalletRow) (w : World)
    (result : SubmitResult) (w' : World) : Type 0 where
  pub status : result.transaction.status ≡ rejected
  pub failure_code : result.transaction.failure_code ≡ "INSUFFICIENT_BALANCE"
  pub first_time : result.idempotent_replay ≡ false
  pub balance : result.balance.amount ≡ row.balance
  pub wallets : w'.db.wallets ≡ w.db.wallets
  pub ledger : w'.db.ledger ≡ w.db.ledger
  pub recorded : w'.db.wagers ≡ w.db.wagers ++ wager_row env.digest result.transaction ∷ []
  pub event : Entry
  pub announced : w'.db.outbox ≡ upsert_entry event w.db.outbox
  pub is_event : IsEvent event "WagerTransactionRejected" input.correlation_id none
  pub closed : w'.session ≡ idle

abbrev pub Declines : Env → SubmitInput → WalletRow → World → Result SubmitResult × World → Type 0
Declines env input row w (ok result, w') = IsDeclined env input row w result w'
Declines env input row w (err e, w') = ⊥

short :
    (w : Wallet) (amount : Money)
    → IsSolvent w
    → IsInt64 amount.amount
    → pos 0 <ℤ amount.amount
    → w.balance.currency ≡ amount.currency
    → w.balance.amount <ℤ amount.amount
    → debit w amount ≡ err (Error.wallet insufficient_balance)
short w amount solvent int64 positive same h =
    rw (debit_exact w amount solvent int64)
      (ground (arith, eq_iff w.balance.currency amount.currency))

module _ (env : Env) (works : Works env) (input : SubmitInput) (row : WalletRow) (db : Db) (u r : ℕ)
    (p : IsOffered env input row db u) (bets : input.transaction.kind ≡ bet)
    (above : row.balance <ℤ input.transaction.amount.amount) where
  abbrev declined : Transaction
  declined = record (candidate env input row db u r p) {
    status = rejected;
    failure_code = failure_insufficient_balance;
    updated_at = env.clock (suc r);
  }

  abbrev with_transaction : Db
  with_transaction = record db { wagers = db.wagers ++ wager_row env.digest declined ∷ [] }

  is_bet_kind : is_bet input.transaction.kind ≡ true
  is_bet_kind = rw bets refl

  refused :
      move_balance env
        (direction_of input.transaction.kind)
        (wallet_of row)
        input.transaction.amount
      ≡ err (Error.wallet insufficient_balance)
  unfolding move_balance
  refused =
      ap (λ k. move_balance env (direction_of k) (wallet_of row) input.transaction.amount) bets
      ∙ short (wallet_of row) input.transaction.amount p.solvent p.int64 p.positive p.currency above

  pub declines :
      (s : Session)
      → IsLive s
      → (e : Entry) × Runs
          (submit env input)
          (quiet s db u r)
          (first_processing declined (wallet_of row).balance)
          (quiet s
            (record with_transaction { outbox = upsert_entry e db.outbox })
            (suc (suc u))
            (suc (suc (suc (suc r)))))
        × IsEvent e "WagerTransactionRejected" input.correlation_id none
  unfolding settle move_balance new_rejected_event mark_rejected save_wager save_all
  declines s live =
      let (e, announces, t) =
        IsEvent-Runs env works input.correlation_id p.has_correlation "WagerTransaction"
          "WagerTransactionRejected" (env.new_uuid u)
          (rejected_data (env.new_uuid u) input.transaction.kind failure_insufficient_balance) none
          refl refl (works.new_uuid u) opened db (suc u) (suc (suc r)) in
      (
        e,
        submit-Runs env input row db u r p s live (bet-IsPlay input.transaction.kind bets) (
            rw (refused, is_bet_kind)
              (Runs-bind _ (Runs-read_clock env.clock) (
                Runs-bind _ (Runs-lift refl) (
                  Runs-bind _ announces (
                    Runs-bind _
                      (Runs-exec _ (
                        stored_row env input row db u r p none rejected failure_insufficient_balance
                          (env.clock (suc r)) refl))
                      (Runs-bind _ (Runs-bind _ (Runs-exec (store_entry e) refl) Runs-pure)
                        Runs-pure)))))),
        t,
      )

module _ (env : Env) (works : Works env) (input : SubmitInput) (row : WalletRow) (w : World)
    (i : w.session ≡ idle) (no_faults : w.faults ≡ [])
    (offered : IsOffered env input row w.db w.uuids) (bets : input.transaction.kind ≡ bet)
    (above : row.balance <ℤ input.transaction.amount.amount) where
  -- Where no database call fails and nothing stands against the submission of a bet but its amount,
  -- which is above the balance of the wallet, it returns: the transaction is recorded as rejected for
  -- insufficient balance, no wallet and no ledger entry changes, and the event of the rejection waits
  -- in the outbox.
  pub submit-Declines : Declines env input row w (submit env input w)
  submit-Declines =
      let (e, runs, t) =
        declines env works input row w.db w.uuids w.readings offered bets above idle tt in
      subst (Declines env input row w)
        (sym (ap (submit env input) (quiet_eta w i no_faults) ∙ runs.runs))
        (record {
          status = refl;
          failure_code = refl;
          first_time = refl;
          balance = refl;
          wallets = refl;
          ledger = refl;
          recorded = refl;
          event = e;
          announced = refl;
          is_event = t;
          closed = refl;
        })
