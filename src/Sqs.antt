-- ===== src/Sqs.antt =====
-- internal/sqs: the wire shapes of the queue's messages, and what surrounds the consumer.
pub mod Consumer
pub mod Publisher
use croupier.Prelude.{String, not, str_eq, Option}
use Prim.Native.String.{◌++◌ as append}
use croupier.Errors.{
  Error, Result, ◌>>◌, fail_if, unsupported_type, missing_message_id, key_mismatch,
}
use croupier.Values.{Uuid, Time, Digest}
use croupier.Money.{Money}
use croupier.Wager.{Kind}

-- `wagerTransactionMessage`
pub record Message : Type 0 where
  pub provider_id : String
  pub external_transaction_id : String
  pub idempotency_key : String
  pub player_id : Uuid
  pub wallet_id : Uuid
  pub round_id : String
  pub game_id : String
  pub kind : Kind
  pub money : Money
  pub reference_external_transaction_id : Option String

-- `wagerTransactionEnvelope`
pub record Envelope : Type 0 where
  pub message_id : String
  pub type_name : String
  pub occurred_at : Time
  pub message : Message

-- a `types.Message` of the SQS client; its own message id is only logged
pub record Delivery : Type 0 where
  pub receipt_handle : String
  pub body : String

-- encoding/json on an envelope, and SHA-256 of a body
pub record Codec : Type 0 where
  pub decode_envelope : String → Result Envelope
  pub body_hash : String → Digest

-- the fields of `Consumer` that its methods read
pub record Settings : Type 0 where
  pub consumer_name : String
  pub codec : Codec

-- the labels of one `ObserveWagerSubmission`
pub record Observation : Type 0 where
  pub kind_label : String
  pub outcome : String

abbrev wager_transaction_requested_type : String
wager_transaction_requested_type = "WagerTransactionRequested"

-- the three tests of `handle` on a decoded envelope
unfoldable pub check_envelope : Envelope → Result (Unit {0})
check_envelope e = do
  fail_if (not (str_eq e.type_name wager_transaction_requested_type)) (Error.sqs unsupported_type)
  fail_if (str_eq e.message_id "") (Error.sqs missing_message_id)
  fail_if
      (not (
        str_eq e.message.idempotency_key
          (append (append e.message.provider_id ":") e.message.external_transaction_id)))
      (Error.sqs key_mismatch)
