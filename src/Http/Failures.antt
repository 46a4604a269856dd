-- ===== src/Http/Failures.antt =====
-- internal/httpapi/errors.go: the status and the text that a client sees for an error.
use croupier.Prelude.{ℕ, ◌≡◌, refl, Bool, true, false, if◌then◌else◌}
use croupier.Errors.{
  Error, MoneyError, WagerError, WalletError, wallet_not_found, wager_transaction_not_found,
  ledger_entry_not_found, wallet_already_exists, idempotency_conflict, unavailable,
}
use croupier.Store.Monad.{World}
use croupier.Http.{Body, Response, Handler, write_json, message, error_text}

-- `isValidationError`: the error is one of `validationErrors`
unfoldable pub is_validation_error : Error → Bool
is_validation_error (Error.wallet WalletError.negative_initial_balance) = true
is_validation_error (Error.wager WagerError.invalid_input) = true
is_validation_error (Error.wager WagerError.invalid_kind) = true
is_validation_error (Error.wager WagerError.non_positive_amount) = true
is_validation_error (Error.wager WagerError.loss_amount_must_be_zero) = true
is_validation_error (Error.wager WagerError.missing_reference) = true
is_validation_error (Error.wager WagerError.unexpected_reference) = true
is_validation_error (Error.money e) = true
is_validation_error _ = false

-- the last cases of `writeError`
abbrev write_unexpected : Error → Handler
write_unexpected (Error.app unavailable) =
    write_json 503 (message "service temporarily unavailable")
write_unexpected e = write_json 500 (message "internal error")

-- the cases behind those for a missing row and a conflict
abbrev write_other_error : Error → Handler
write_other_error e =
    if is_validation_error e then write_json 400 (error_text e) else write_unexpected e

-- `writeError`
unfoldable pub write_error : Error → Handler
unfolding is_validation_error
write_error (Error.app wallet_not_found) = write_json 404 (error_text (Error.app wallet_not_found))
write_error (Error.app wager_transaction_not_found) =
    write_json 404 (error_text (Error.app wager_transaction_not_found))
write_error (Error.app ledger_entry_not_found) =
    write_json 404 (error_text (Error.app ledger_entry_not_found))
write_error (Error.app wallet_already_exists) =
    write_json 409 (error_text (Error.app wallet_already_exists))
write_error (Error.app idempotency_conflict) =
    write_json 409 (error_text (Error.app idempotency_conflict))
write_error e = write_other_error e

-- what an error is to a client
pub data ErrorClass : Type 0 where
  missing conflict invalid unreachable internal : ErrorClass

-- A row that is not there is missing; an existing wallet and a key used for something else conflict; what
-- the rules of money, of a new wallet or of a new transaction refuse is invalid; a database out of reach
-- is unreachable. Everything else is internal.
abbrev pub class_of : Error → ErrorClass
class_of (Error.app wallet_not_found) = missing
class_of (Error.app wager_transaction_not_found) = missing
class_of (Error.app ledger_entry_not_found) = missing
class_of (Error.app wallet_already_exists) = conflict
class_of (Error.app idempotency_conflict) = conflict
class_of (Error.app unavailable) = unreachable
class_of (Error.money MoneyError.invalid_amount) = invalid
class_of (Error.money MoneyError.invalid_currency) = invalid
class_of (Error.money MoneyError.currency_mismatch) = invalid
class_of (Error.money MoneyError.overflow) = invalid
class_of (Error.wallet WalletError.negative_initial_balance) = invalid
class_of (Error.wager WagerError.invalid_input) = invalid
class_of (Error.wager WagerError.invalid_kind) = invalid
class_of (Error.wager WagerError.non_positive_amount) = invalid
class_of (Error.wager WagerError.loss_amount_must_be_zero) = invalid
class_of (Error.wager WagerError.missing_reference) = invalid
class_of (Error.wager WagerError.unexpected_reference) = invalid
class_of _ = internal

abbrev pub status_of : ErrorClass → ℕ
status_of missing = 404
status_of conflict = 409
status_of invalid = 400
status_of unreachable = 503
status_of internal = 500

-- Only the client's own faults are told by their text.
abbrev pub body_of : ErrorClass → Error → Body
body_of unreachable e = message "service temporarily unavailable"
body_of internal e = message "internal error"
body_of _ e = error_text e

abbrev pub IsErrorResponse : Error → Response → Type 0
IsErrorResponse e r = (r.status ≡ status_of (class_of e)) × (r.body ≡ body_of (class_of e) e)

-- ... and it changes nothing
abbrev pub IsErrorAnswer : Error → World → Response × World → Type 0
IsErrorAnswer e before (r, w) = IsErrorResponse e r × (w ≡ before)

-- `writeError` answers every error by its class, a missing row with 404, a conflict with 409 and invalid
-- input with 400, each with the text of the error, an unreachable database with 503 and everything else
-- with 500, each with a fixed text, and it changes nothing.
pub write_error-IsErrorAnswer : (e : Error) (w : World) → IsErrorAnswer e w (write_error e w)
unfolding write_error is_validation_error
write_error-IsErrorAnswer (Error.app wallet_not_found) w = ((refl, refl), refl)
write_error-IsErrorAnswer (Error.app wager_transaction_not_found) w = ((refl, refl), refl)
write_error-IsErrorAnswer (Error.app ledger_entry_not_found) w = ((refl, refl), refl)
write_error-IsErrorAnswer (Error.app wallet_already_exists) w = ((refl, refl), refl)
write_error-IsErrorAnswer (Error.app idempotency_conflict) w = ((refl, refl), refl)
write_error-IsErrorAnswer (Error.app unavailable) w = ((refl, refl), refl)
write_error-IsErrorAnswer (Error.money MoneyError.invalid_amount) w = ((refl, refl), refl)
write_error-IsErrorAnswer (Error.money MoneyError.invalid_currency) w = ((refl, refl), refl)
write_error-IsErrorAnswer (Error.money MoneyError.currency_mismatch) w = ((refl, refl), refl)
write_error-IsErrorAnswer (Error.money MoneyError.overflow) w = ((refl, refl), refl)
write_error-IsErrorAnswer (Error.wallet WalletError.negative_initial_balance) w =
    ((refl, refl), refl)
write_error-IsErrorAnswer (Error.wager WagerError.invalid_input) w = ((refl, refl), refl)
write_error-IsErrorAnswer (Error.wager WagerError.invalid_kind) w = ((refl, refl), refl)
write_error-IsErrorAnswer (Error.wager WagerError.non_positive_amount) w = ((refl, refl), refl)
write_error-IsErrorAnswer (Error.wager WagerError.loss_amount_must_be_zero) w = ((refl, refl), refl)
write_error-IsErrorAnswer (Error.wager WagerError.missing_reference) w = ((refl, refl), refl)
write_error-IsErrorAnswer (Error.wager WagerError.unexpected_reference) w = ((refl, refl), refl)
write_error-IsErrorAnswer _ w = ((refl, refl), refl)
