-- ===== src/Errors.antt =====
-- The sentinel errors of the packages, and results. Go's `(value, error)` is a `Result`, and a bare
-- `error` is a `Result` of the unit type. `Error.backend` stands for an error that a backing service
-- (the database, the queue, the identity provider) reports and that no package names, and
-- `Error.nil_pointer` for the panic of a nil dereference.
use croupier.Prelude.{ℕ, ◌≡◌, refl, Bool, true, false}

-- internal/money/money.go
pub data MoneyError : Type 0 where
  invalid_amount invalid_currency currency_mismatch overflow : MoneyError

-- internal/wallet/wallet.go and internal/wallet/ledger_entry.go
pub data WalletError : Type 0 where
  insufficient_balance negative_initial_balance non_positive_amount : WalletError
  invalid_input invalid_direction negative_balance inconsistent_balance : WalletError

-- internal/wager/transaction.go
pub data WagerError : Type 0 where
  invalid_input invalid_kind invalid_reference invalid_transition : WagerError
  loss_amount_must_be_zero missing_reference non_positive_amount : WagerError
  reference_mismatch terminal_transaction unexpected_reference : WagerError

-- internal/outbox/outbox.go
pub data OutboxError : Type 0 where
  invalid_input invalid_transition : OutboxError

-- internal/inbox/inbox.go
pub data InboxError : Type 0 where
  invalid_input already_completed : InboxError

-- internal/app/repository.go; `no_movement` is the error that `movementDirection` formats
pub data AppError : Type 0 where
  wallet_not_found wallet_already_exists ledger_entry_not_found : AppError
  wager_transaction_not_found wager_transaction_already_exists : AppError
  idempotency_conflict inbox_entry_not_found outbox_entry_not_found : AppError
  unavailable no_movement : AppError

-- internal/sqs/consumer.go: the errors that `handle` formats itself
pub data SqsError : Type 0 where
  unsupported_type missing_message_id key_mismatch different_content : SqsError

-- internal/auth/verifier.go
pub data AuthError : Type 0 where
  invalid_token : AuthError

pub data Error : Type 0 where
  money : MoneyError → Error
  wallet : WalletError → Error
  wager : WagerError → Error
  outbox : OutboxError → Error
  inbox : InboxError → Error
  app : AppError → Error
  sqs : SqsError → Error
  auth : AuthError → Error
  backend : ℕ → Error
  nil_pointer : Error

pub data Result {ℓ} (A : Type ℓ) : Type ℓ where
  ok : A → Result A
  err : Error → Result A

-- `if b { return nil, e }`
abbrev pub fail_if : Bool → Error → Result (Unit {0})
fail_if true e = err e
fail_if false e = ok tt

-- `if err != nil { return nil, err }` behind a call
infixl 5 ◌>>=◌
abbrev pub ◌>>=◌ {ℓ κ} :
    {Value : Type ℓ} {Next : Type κ} → Result Value → (Value → Result Next) → Result Next
err e >>= rest = err e
ok value >>= rest = rest value

-- the same behind a call that returns a bare error
infixl 5 ◌>>◌
abbrev pub ◌>>◌ {ℓ} : {Next : Type ℓ} → Result (Unit {0}) → Result Next → Result Next
call >> rest = call >>= λ _. rest

-- A chain that succeeds has succeeded at its first call, and then at the rest.
module _ {ℓ κ} {Value : Type ℓ} {Next : Type κ} (rest : Value → Result Next) {next : Next} where
  both_ok :
      (call : Result Value)
      → (call >>= rest) ≡ ok next
      → (value : Value) × (call ≡ ok value) × (rest value ≡ ok next)
  both_ok (err e) failed = cc
  both_ok (ok value) succeeded = (value, refl, succeeded)

pub >>=-eq-ok {ℓ κ} :
    {Value : Type ℓ} {Next : Type κ} (call : Result Value) (rest : Value → Result Next)
    {next : Next}
    → (call >>= rest) ≡ ok next
    → (value : Value) × (call ≡ ok value) × (rest value ≡ ok next)
>>=-eq-ok call rest succeeded = both_ok rest call succeeded

pub ok_injective {ℓ} : {A : Type ℓ} {a b : A} → ok a ≡ ok b → a ≡ b
ok_injective h = cc
