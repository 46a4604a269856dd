-- ===== src/Tests/Runs.antt =====
-- Runs of the code.
use croupier.Prelude.{◌≡◌, refl, false, Bool, Option, some, none}
use croupier.Prelude.Int.{ℤ, pos, ◌+ℤ◌, ◌-ℤ◌}
use croupier.Prelude.Int64.{add64, sub64, wrap64}
use croupier.Errors.{Result, ok, err}
use croupier.Money.{from_minor_units, add, subtract, negate, equal}
use croupier.Wallet.{debit}
use croupier.Wallet.Ledger.{new_ledger_entry, expected_after}
use croupier.Wager.{new_transaction, check_kind, mark_processed}
use croupier.Outbox.{new_entry}
use croupier.Store.Monad.{World, ◌>>=◌, attempt, query, exec, read_clock, draw_uuid, within_tx}
use croupier.Store.Wallets.{find_wallet, scan_wallet, save_wallet, upsert_wallet, replace_wallet}
use croupier.Store.Entries.{save_ledger_entry, store_ledger_entry}
use croupier.Store.Wagers.{find_by_key, scan_wager, save_wager, wager_row, upsert_wager}
use croupier.Store.Outbox.{save_all, upsert_entry}
use croupier.App.Events.{new_processed_event, new_balance_changed_event, new_event}
use croupier.App.Movement.{SubmitResult, movement_direction, move_balance}
use croupier.App.Submit.{submit, process}
use mathlib.Core.Option.{map}
use croupier.Values.{Uuid}
use croupier.Wager.{TxStatus, rejected, validate_reference, resolve_reference, mark_rejected}
use croupier.Wager.Kinds.{referenceable_kind}
use croupier.Store.Tables.{WagerRow}
use croupier.Store.Wagers.{find_reversal, wager_with_id, replace_wager}
use croupier.App.Events.{new_rejected_event}
use croupier.App.Movement.{movement}
use croupier.Tests.Data.{stale_refund, refunded_db, env, submission, opened_db, at}

abbrev balance_of_result : Result SubmitResult × World → Option (ℤ × Bool)
balance_of_result (ok r, w) = some (r.balance.amount, r.idempotent_replay)
balance_of_result (err e, w) = none

-- The bet of 0.30 leaves 0.70.
submitted_bet : balance_of_result (submit env submission (at opened_db)) ≡ some (pos 70, false)
unfolding submit process movement_direction move_balance ◌>>=◌ attempt query exec read_clock
    draw_uuid within_tx find_by_key scan_wager new_transaction check_kind find_wallet scan_wallet
    from_minor_units debit subtract negate add add64 sub64 wrap64 ◌+ℤ◌ ◌-ℤ◌ new_ledger_entry
    expected_after equal mark_processed new_processed_event new_balance_changed_event new_event
    new_entry save_wager wager_row upsert_wager save_wallet upsert_wallet replace_wallet
    save_ledger_entry store_ledger_entry save_all upsert_entry
submitted_bet = refl

abbrev status_of_row : WagerRow → TxStatus
status_of_row r = r.status

abbrev stored_status : Uuid → World → Option TxStatus
stored_status id w = map status_of_row (wager_with_id id w.db.wagers)

-- A second resolver, with its copy of the refund from before the first processed it, takes the
-- processed row for a duplicate and overwrites it as rejected.
stale_refund_rejected :
    stored_status 21 (process env stale_refund "c4" (at refunded_db)).1 ≡ some rejected
unfolding process movement_direction ◌>>=◌ attempt query exec read_clock draw_uuid within_tx
    find_by_key scan_wager validate_reference referenceable_kind resolve_reference find_reversal
    find_wallet scan_wallet from_minor_units equal mark_rejected new_rejected_event new_event
    new_entry save_wager wager_row upsert_wager replace_wager save_all upsert_entry movement
stale_refund_rejected = refl
