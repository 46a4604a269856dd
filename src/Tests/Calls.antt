-- ===== src/Tests/Calls.antt =====
-- Theorems on the repositories and the use cases, applied.
use croupier.Prelude.{ℕ, none, arith, ◌≡◌, refl, Option, some, arith}
use croupier.Prelude.Int.{pos}
use croupier.Errors.{Error, ok}
use croupier.Money.{from_minor_units}
use croupier.Outbox.{Entry}
use croupier.Store.Monad.{within_tx, idle}
use croupier.Store.Rules.{After}
use croupier.Store.Atomic.{IsAtomic, within_tx-IsAtomic}
use croupier.Wager.{Transaction}
use croupier.Values.{micros}
use croupier.Store.Wagers.{wager_row, scan_wager}
use croupier.Store.Books.{stored}
use croupier.Store.RoundTrip.{scan_wager-wager_row}
use croupier.App.Submit.{submit}
use croupier.App.Submit.Replay.{IsReplay, Recorded, submit-IsReplay}
use croupier.App.Movement.Conservation.{Reconciled}
use croupier.App.Resolver.{resolve_due}
use croupier.App.Resolver.Books.{resolve_due-Reconciled}
use croupier.App.Reconcile.{reconcile}
use croupier.App.Reconcile.Report.{IsReport, FitsColumns, reconcile-IsReport}
use croupier.App.Worker.{run_once}
use croupier.App.Worker.Relay.{Relayed, run_once-Relayed}
use croupier.Store.Wallets.{wallet_with_id}
use croupier.Store.Wagers.{select_reversal}
use croupier.Wallet.Ledger.{credit, debit, LedgerEntry}
use croupier.App.Movement.Balance.{AnswersWith, movement-AnswersWith}
use croupier.App.Movement.{movement, failure_duplicate_reversal}
use croupier.App.Movement.Duplicate.{IsRejected, movement-IsRejected}
use croupier.App.Create.{CreateWalletInput}
use croupier.Tests.Data.{
  refunded_db, settled_refund, second_refund, reais, env, submission, opened_db, played_db, at,
  the_bet, resolver,
}
use croupier.Tests.Books.{opened_books}

Recorded-bet : Recorded env submission the_bet played_db
unfolding scan_wager from_minor_units
Recorded-bet = refl

submit-IsReplay_example :
    ((submit env submission (at played_db)).1.db ≡ played_db)
    × After (λ r db. IsReplay env submission the_bet db r) (submit env submission (at played_db))
submit-IsReplay_example = submit-IsReplay env submission the_bet (at played_db) refl Recorded-bet

resolve_due-Reconciled_example :
    let w' = (resolve_due env resolver 60 10 (at opened_db)).1 in
    Reconciled w'.db.wallets w'.db.ledger × (w'.session ≡ idle)
resolve_due-Reconciled_example =
    resolve_due-Reconciled env resolver 60 10 (at opened_db) refl opened_books

columns : FitsColumns 7 opened_db
unfolding stored
columns = record {
  balance_fits = (omega arith, omega arith);
  amounts_fit = ((omega arith, omega arith), tt);
}

reconcile-IsReport_example : After (IsReport 7) (reconcile env 7 (at opened_db))
reconcile-IsReport_example = reconcile-IsReport env 7 (at opened_db) columns

abbrev refusing : Entry → Option Error
refusing e = some (Error.backend 7)

run_once-Relayed_example :
    After
      (Relayed env.jsonb_text refusing (pos 10) 50 51 opened_db)
      (run_once env refusing (pos 10) (at opened_db))
run_once-Relayed_example = run_once-Relayed env refusing (pos 10) (at opened_db)

within_tx-IsAtomic_example :
    IsAtomic
      (submit env submission)
      (at opened_db)
      (within_tx (submit env submission) (at opened_db))
within_tx-IsAtomic_example = within_tx-IsAtomic (submit env submission) (at opened_db) refl

abbrev late_bet : Transaction
late_bet = record the_bet { created_at = 1234567; updated_at = 2345678 }

scan_wager-wager_row_example :
    scan_wager env.parse_iso (wager_row env.digest late_bet)
    ≡ ok (record late_bet { created_at = micros 1234567; updated_at = micros 2345678 })
scan_wager-wager_row_example = scan_wager-wager_row env.parse_iso env.digest late_bet refl

none_to_come : (n : ℕ) → wallet_with_id (env.new_uuid n) opened_db.wallets ≡ none
none_to_come n = ground arith

abbrev creation : CreateWalletInput
creation = record { player_id = 4; initial_balance = reais 50; correlation_id = "c2" }

reversed : select_reversal env.parse_iso 20 refunded_db ≡ ok settled_refund
unfolding scan_wager from_minor_units
reversed = refl

movement-IsRejected_example :
    After
      (λ r db.
        (db.wallets ≡ refunded_db.wallets)
        × (db.ledger ≡ refunded_db.ledger)
        × IsRejected failure_duplicate_reversal r)
      (movement env second_refund "c3" credit (some the_bet) (at refunded_db))
movement-IsRejected_example =
    movement-IsRejected env second_refund the_bet settled_refund "c3" credit (at refunded_db)
      reversed

movement-AnswersWith_example :
    After (AnswersWith 7) (movement env the_bet "c5" debit none (at opened_db))
movement-AnswersWith_example = movement-AnswersWith env the_bet "c5" debit none (at opened_db)

abbrev the_deposit : LedgerEntry
the_deposit = record {
  id = 9;
  wallet_id = 7;
  transaction_id = 8;
  direction = credit;
  amount = reais 100;
  balance_before = reais 0;
  balance_after = reais 100;
  created_at = 1;
}
