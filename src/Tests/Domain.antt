-- ===== src/Tests/Domain.antt =====
-- Theorems on the domain types, applied.
use croupier.Prelude.{◌≡◌, ◌≢◌, ◌↔◌, refl, not, arith, if◌then◌else◌, str_eq, ◌*◌, ◌^◌}
use croupier.Prelude.Int.{pos, ◌+ℤ◌, ◌-ℤ◌, ltb_ℤ}
use croupier.Prelude.Int64.{IsInt64, max_int64, add64, sub64, wrap64}
use croupier.Errors.{
  Error, ok, err, overflow, currency_mismatch, insufficient_balance, non_positive_amount,
}
use croupier.Money.{add, subtract, negate}
use croupier.Money.Bounds.{exact, add-exact}
use croupier.Wallet.{debit, credit}
use croupier.Wallet.Balance.{IsSolvent, moved, debit_exact, credit_exact}
use croupier.Wager.{
  pending, pending_reference, opening, new_transaction, check_kind, validate_reference,
  mark_pending_reference,
}
use croupier.Wager.Reference.{
  IsSubmission, IsReferenceOf, new_transaction-IsSubmission, validate_reference_iff, submitted,
}
use croupier.Wager.Lifecycle.{here, next, park, SameSubject, Reach-SameSubject, Reach-terminal}
use croupier.App.Worker.{backoff_delay, shift_of}
use croupier.App.Worker.Backoff.{backoff_exact}
use croupier.Tests.Data.{reais, the_wallet, the_bet, the_refund, bet_input}

solvent : IsSolvent the_wallet
solvent = (omega arith, omega arith)

in_range : IsInt64 (pos 30)
in_range = (omega arith, omega arith)

hundred_in_range : IsInt64 (pos 100)
hundred_in_range = (omega arith, omega arith)

add-exact_example : add (reais 100) (reais 30) ≡ exact (reais 100) (reais 30) (pos 100 +ℤ pos 30)
add-exact_example = add-exact (reais 100) (reais 30) hundred_in_range in_range

debit_exact_example : debit the_wallet (reais 30) ≡ (
    if not (ltb_ℤ (pos 0) (pos 30))
    then err (Error.wallet non_positive_amount)
    else if not (str_eq "BRL" "BRL")
    then err (Error.money currency_mismatch)
    else if ltb_ℤ (pos 100) (pos 30)
    then err (Error.wallet insufficient_balance)
    else ok (moved the_wallet (pos 100 -ℤ pos 30)))
debit_exact_example = debit_exact the_wallet (reais 30) solvent in_range

credit_exact_example : credit the_wallet (reais 30) ≡ (
    if not (ltb_ℤ (pos 0) (pos 30))
    then err (Error.wallet non_positive_amount)
    else if not (str_eq "BRL" "BRL")
    then err (Error.money currency_mismatch)
    else if ltb_ℤ max_int64 (pos 100 +ℤ pos 30)
    then err (Error.money overflow)
    else ok (moved the_wallet (pos 100 +ℤ pos 30)))
credit_exact_example = credit_exact the_wallet (reais 30) solvent in_range

debited : debit the_wallet (reais 30) ≡ ok (moved the_wallet (pos 70))
unfolding debit subtract negate add sub64 add64 wrap64 ◌+ℤ◌ ◌-ℤ◌
debited = refl

credited : credit the_wallet (reais 30) ≡ ok (moved the_wallet (pos 130))
unfolding credit add add64 wrap64 ◌+ℤ◌
credited = refl

validate_reference_iff_example :
    (validate_reference the_refund the_bet ≡ ok tt) ↔ IsReferenceOf the_bet the_refund
validate_reference_iff_example = validate_reference_iff the_refund the_bet

accepted_bet : new_transaction 20 2 bet_input ≡ ok (submitted 20 2 bet_input)
unfolding new_transaction check_kind
accepted_bet = refl

new_transaction-IsSubmission_example :
    IsSubmission (submitted 20 2 bet_input)
    × ((submitted 20 2 bet_input).status ≡ pending)
    × ((submitted 20 2 bet_input).kind ≢ opening)
new_transaction-IsSubmission_example = new_transaction-IsSubmission 20 2 bet_input accepted_bet

parked :
    mark_pending_reference 6 the_refund
    ≡ ok (record the_refund { status = pending_reference; updated_at = 6 })
unfolding mark_pending_reference
parked = refl

Reach-SameSubject_example :
    SameSubject the_refund (record the_refund { status = pending_reference; updated_at = 6 })
Reach-SameSubject_example = Reach-SameSubject (next here (park 6 parked))

Reach-terminal_example : the_bet ≡ the_bet
Reach-terminal_example = Reach-terminal {tx = the_bet} {tx' = the_bet} refl here

backoff_exact_example : backoff_delay (pos 10) (pos 3) ≡ pos (10 * 2 ^ shift_of (pos 3))
backoff_exact_example = backoff_exact 10 (pos 3) (omega arith)
