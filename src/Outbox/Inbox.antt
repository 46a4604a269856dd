-- ===== src/Outbox/Inbox.antt =====
-- internal/inbox/inbox.go: what a consumer has recorded of a message.
use croupier.Prelude.{String, Bool, ◌||◌, str_eq, Option, none, some}
use croupier.Errors.{Error, InboxError, Result, ok, already_completed, ◌>>◌, fail_if}
use croupier.Values.{Time, Digest, is_some}

pub record Inbox : Type 0 where
  pub consumer_name : String
  pub message_id : String
  pub payload_hash : Digest
  pub completed_at : Option Time
  pub created_at : Time

pub record NewInput : Type 0 where
  pub consumer_name : String
  pub message_id : String
  pub payload_hash : Digest

unfoldable pub new : Time → NewInput → Result Inbox
new now input = do
  fail_if (str_eq input.consumer_name "" || str_eq input.message_id "")
      (Error.inbox InboxError.invalid_input)
  ok (record {
    consumer_name = input.consumer_name;
    message_id = input.message_id;
    payload_hash = input.payload_hash;
    completed_at = none;
    created_at = now;
  })

-- `FromPersistence`
abbrev pub from_persistence : String → String → Digest → Option Time → Time → Inbox
from_persistence consumer_name message_id payload_hash completed_at created_at = record {
  consumer_name = consumer_name;
  message_id = message_id;
  payload_hash = payload_hash;
  completed_at = completed_at;
  created_at = created_at;
}

-- `IsCompleted`
abbrev pub is_completed : Inbox → Bool
is_completed i = is_some i.completed_at

unfoldable pub mark_completed : Time → Inbox → Result Inbox
mark_completed now i = do
  fail_if (is_completed i) (Error.inbox already_completed)
  ok (record i { completed_at = some now })
