-- ===== src/Sqs/Publisher.antt =====
-- internal/sqs/publisher.go: the message that an outbox entry is sent as. encoding/json, the text of a
-- UUID and the call of SQS are parameters.
use croupier.Prelude.{ℕ, String, ◌≡◌, refl, ◌∙◌, Option, some, List, arith}
use croupier.Prelude.Int.{ℤ}
use croupier.Errors.{Error, Result, ok, err, ◌>>=◌}
use croupier.Values.{Uuid, Time}
use croupier.Outbox.{Entry, schedule_retry, mark_published}

-- `eventEnvelope`; the data is the JSON of the entry's payload
pub record EventEnvelope : Type 0 where
  pub event_id : Uuid
  pub aggregate_type : String
  pub aggregate_id : Uuid
  pub event_type : String
  pub version : ℤ
  pub occurred_at : Time
  pub correlation_id : String
  pub causation_id : Option String
  pub payload : List ℕ

-- the fields of `sqs.SendMessageInput` that are set
pub record SendMessageInput : Type 0 where
  pub queue_url : String
  pub message_body : String
  pub message_group_id : String
  pub message_deduplication_id : String

-- the fields of `Publisher`, and what it calls
pub record Publisher : Type 0 where
  pub queue_url : String
  pub marshal_envelope : EventEnvelope → Result String
  pub uuid_text : Uuid → String
  pub send_message : SendMessageInput → Option Error

abbrev envelope_of : Entry → EventEnvelope
envelope_of e = record {
  event_id = e.id;
  aggregate_type = e.aggregate_type;
  aggregate_id = e.aggregate_id;
  event_type = e.event_type;
  version = e.version;
  occurred_at = e.occurred_at;
  correlation_id = e.correlation_id;
  causation_id = e.causation_id;
  payload = e.payload;
}

-- what `Publish` hands to `SendMessage`
unfoldable pub message_of : Publisher → Entry → Result SendMessageInput
message_of p e = do
  body ← p.marshal_envelope (envelope_of e)
  ok (record {
    queue_url = p.queue_url;
    message_body = body;
    message_group_id = p.uuid_text e.aggregate_id;
    message_deduplication_id = p.uuid_text e.id;
  })

abbrev sent_or_failed : Publisher → Result SendMessageInput → Option Error
sent_or_failed p (ok message) = p.send_message message
sent_or_failed p (err e) = some e

-- `Publish`: its error, if any
unfoldable pub publish : Publisher → Entry → Option Error
unfolding message_of
publish p e = sent_or_failed p (message_of p e)

-- the changes that an entry goes through once it is in the outbox
pub data Later : Entry → Entry → Type 0 where
  same : (e : Entry) → Later e e
  retried : (next : Time) {e f g : Entry} → Later e f → schedule_retry f next ≡ ok g → Later e g
  published : {e f : Entry} → Later e f → Later e (mark_published f)

retried-message :
    (p : Publisher) (f g : Entry) (next : Time)
    → schedule_retry f next ≡ ok g
    → message_of p g ≡ message_of p f
unfolding message_of schedule_retry
retried-message p f g next h = ground arith

published-message : (p : Publisher) (f : Entry) → message_of p (mark_published f) ≡ message_of p f
unfolding message_of mark_published
published-message p f = refl

-- However often an entry is put off or published again, it is sent as the same message: the same body with
-- the same event id, in the same group and with the same deduplication id.
pub Later-message : (p : Publisher) {e f : Entry} → Later e f → message_of p f ≡ message_of p e
Later-message p (same e) = refl
Later-message p (retried next {e} {f} {g} later h) =
    retried-message p f g next h ∙ Later-message p later
Later-message p (published {e} {f} later) = published-message p f ∙ Later-message p later
