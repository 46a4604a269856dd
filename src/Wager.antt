-- ===== src/Wager.antt =====
-- internal/wager/transaction.go: a wagering transaction and its states. A method that mutates
-- `*Transaction` returns the new transaction; an error leaves it as it was.
pub mod Kinds
pub mod Lifecycle
pub mod Reference
pub mod Persistence
pub use Kinds.*
use croupier.Prelude.{
  String, Bool, true, false, not, ◌&&◌, ◌||◌, ◌==◌, str_eq, Option, none, some, if◌then◌else◌, ◌++◌,
}
use croupier.Errors.{
  Error, Result, ok, err, invalid_kind, invalid_reference, invalid_transition,
  loss_amount_must_be_zero, WagerError, missing_reference, reference_mismatch, terminal_transaction,
  unexpected_reference, ◌>>=◌, ◌>>◌, fail_if,
}
use croupier.Values.{Uuid, nil_uuid, Time, Digest, is_some}
use croupier.Money.{Money, equal, is_zero, is_positive}

pub record Transaction : Type 0 where
  pub id : Uuid
  pub status : TxStatus
  pub external_transaction_id : String
  pub provider_id : String
  pub player_id : Uuid
  pub wallet_id : Uuid
  pub round_id : String
  pub game_id : String
  pub kind : Kind
  pub amount : Money
  pub reference_external_transaction_id : Option String
  pub reference_transaction_id : Option Uuid
  pub failure_code : String
  pub created_at : Time
  pub updated_at : Time

pub record NewTransactionInput : Type 0 where
  pub provider_id : String
  pub external_transaction_id : String
  pub player_id : Uuid
  pub wallet_id : Uuid
  pub round_id : String
  pub game_id : String
  pub kind : Kind
  pub amount : Money
  pub reference_external_transaction_id : Option String

-- the `switch` on the kind
unfoldable pub check_kind : Kind → Money → Option String → Result (Unit {0})
check_kind bet amount reference = do
  fail_if (not (is_positive amount)) (Error.wager WagerError.non_positive_amount)
  fail_if (is_some reference) (Error.wager unexpected_reference)
check_kind win amount reference =
    fail_if (not (is_positive amount)) (Error.wager WagerError.non_positive_amount)
check_kind loss amount reference =
    fail_if (not (is_zero amount)) (Error.wager loss_amount_must_be_zero)
check_kind refund amount reference = do
  fail_if (not (is_positive amount)) (Error.wager WagerError.non_positive_amount)
  fail_if (not (is_some reference)) (Error.wager missing_reference)
check_kind rollback amount reference = do
  fail_if (not (is_positive amount)) (Error.wager WagerError.non_positive_amount)
  fail_if (not (is_some reference)) (Error.wager missing_reference)
check_kind opening amount reference = err (Error.wager invalid_kind)
check_kind (other s) amount reference = err (Error.wager invalid_kind)

unfoldable pub new_transaction : Uuid → Time → NewTransactionInput → Result Transaction
new_transaction fresh now input = do
  fail_if
      (str_eq input.provider_id ""
        || str_eq input.external_transaction_id ""
        || input.player_id == nil_uuid
        || input.wallet_id == nil_uuid
        || str_eq input.round_id ""
        || str_eq input.game_id "")
      (Error.wager WagerError.invalid_input)
  check_kind input.kind input.amount input.reference_external_transaction_id
  ok (record {
    id = fresh;
    status = pending;
    external_transaction_id = input.external_transaction_id;
    provider_id = input.provider_id;
    player_id = input.player_id;
    wallet_id = input.wallet_id;
    round_id = input.round_id;
    game_id = input.game_id;
    kind = input.kind;
    amount = input.amount;
    reference_external_transaction_id = input.reference_external_transaction_id;
    reference_transaction_id = none;
    failure_code = "";
    created_at = now;
    updated_at = now;
  })

pub record NewOpeningInput : Type 0 where
  pub player_id : Uuid
  pub wallet_id : Uuid
  pub amount : Money

unfoldable pub new_opening_transaction : Uuid → Time → NewOpeningInput → Result Transaction
new_opening_transaction fresh now input = do
  fail_if (input.player_id == nil_uuid || input.wallet_id == nil_uuid)
      (Error.wager WagerError.invalid_input)
  fail_if (not (is_positive input.amount)) (Error.wager WagerError.non_positive_amount)
  ok (record {
    id = fresh;
    status = processed;
    external_transaction_id = "";
    provider_id = "";
    player_id = input.player_id;
    wallet_id = input.wallet_id;
    round_id = "";
    game_id = "";
    kind = opening;
    amount = input.amount;
    reference_external_transaction_id = none;
    reference_transaction_id = none;
    failure_code = "";
    created_at = now;
    updated_at = now;
  })

-- `tx.referenceTransactionID != nil && *tx.referenceTransactionID != id`
abbrev refers_elsewhere : Option Uuid → Uuid → Bool
refers_elsewhere none id = false
refers_elsewhere (some r) id = not (r == id)

unfoldable pub resolve_reference : Time → Transaction → Uuid → Result Transaction
resolve_reference now tx id = do
  fail_if (not (is_pending tx.status) && not (is_pending_reference tx.status))
      (Error.wager invalid_transition)
  fail_if (refers_elsewhere tx.reference_transaction_id id) (Error.wager reference_mismatch)
  ok (record tx { reference_transaction_id = some id; updated_at = now })

-- `ok, err := ref.amount.Equal(tx.amount); !ok || err != nil`
abbrev amounts_differ : Result Bool → Bool
amounts_differ (ok b) = not b
amounts_differ (err e) = true

-- the test of `ValidateReference` where the external id of the reference is known
abbrev is_invalid_reference : Transaction → String → Transaction → Bool
is_invalid_reference tx reference ref =
    not (referenceable_kind tx.kind ref.kind)
    || not (is_processed ref.status)
    || not (str_eq ref.provider_id tx.provider_id)
    || not (str_eq ref.external_transaction_id reference)
    || not (ref.player_id == tx.player_id)
    || not (ref.wallet_id == tx.wallet_id)
    || not (str_eq ref.round_id tx.round_id)

validate_against : Transaction → Option String → Transaction → Result (Unit {0})
validate_against tx none ref = err (Error.wager missing_reference)
validate_against tx (some reference) ref = do
  fail_if (is_invalid_reference tx reference ref) (Error.wager invalid_reference)
  fail_if (amounts_differ (equal ref.amount tx.amount)) (Error.wager invalid_reference)

unfoldable pub validate_reference : Transaction → Transaction → Result (Unit {0})
unfolding validate_against
validate_reference tx ref = validate_against tx tx.reference_external_transaction_id ref

unfoldable pub mark_processed : Time → Transaction → Result Transaction
mark_processed now tx = do
  fail_if (is_terminal tx.status) (Error.wager terminal_transaction)
  ok (record tx { status = processed; updated_at = now })

unfoldable pub mark_rejected : Time → Transaction → String → Result Transaction
mark_rejected now tx failure_code = do
  fail_if (is_terminal tx.status) (Error.wager terminal_transaction)
  ok (record tx { status = rejected; failure_code = failure_code; updated_at = now })

unfoldable pub mark_pending_reference : Time → Transaction → Result Transaction
mark_pending_reference now tx = do
  fail_if (is_terminal tx.status) (Error.wager terminal_transaction)
  fail_if (not (is_pending tx.status) && not (is_pending_reference tx.status))
      (Error.wager invalid_transition)
  ok (record tx { status = pending_reference; updated_at = now })

unfoldable pub mark_failed : Time → Transaction → String → Result Transaction
mark_failed now tx failure_code = do
  fail_if (is_terminal tx.status) (Error.wager terminal_transaction)
  ok (record tx { status = failed; failure_code = failure_code; updated_at = now })

-- the struct that `PayloadHash` marshals; the digest of its JSON is a parameter of the callers
pub record HashInput : Type 0 where
  pub player_id : Uuid
  pub wallet_id : Uuid
  pub round_id : String
  pub game_id : String
  pub kind : Kind
  pub amount : Money
  pub reference_external_transaction_id : Option String

abbrev pub hash_input : Transaction → HashInput
hash_input tx = record {
  player_id = tx.player_id;
  wallet_id = tx.wallet_id;
  round_id = tx.round_id;
  game_id = tx.game_id;
  kind = tx.kind;
  amount = tx.amount;
  reference_external_transaction_id = tx.reference_external_transaction_id;
}

-- `PayloadHash`; `digest` is `sha256.Sum256` of `json.Marshal`
abbrev pub payload_hash : (HashInput → Digest) → Transaction → Digest
payload_hash digest tx = digest (hash_input tx)
