-- ===== src/Outbox.antt =====
-- internal/outbox/outbox.go: an event that waits for its publication, and internal/inbox/inbox.go: a
-- message that a consumer has begun or completed. `version` and `retryCount` are Go ints; a payload
-- is its bytes.
pub mod Inbox
use croupier.Prelude.{
  ℕ, String, Bool, true, false, not, ◌||◌, ◌==◌, str_eq, Option, none, some, List, [], ◌∷◌,
}
use croupier.Prelude.Int.{ℤ, pos, leb_ℤ}
use croupier.Prelude.Int64.{add64}
use croupier.Errors.{Error, OutboxError, Result, ok, ◌>>=◌, ◌>>◌, fail_if}
use croupier.Values.{Uuid, nil_uuid, Time}

pub data Status : Type 0 where
  pending published : Status

abbrev pub is_pending : Status → Bool
is_pending pending = true
is_pending published = false

pub record Entry : Type 0 where
  pub id : Uuid
  pub aggregate_type : String
  pub aggregate_id : Uuid
  pub event_type : String
  pub version : ℤ
  pub payload : List ℕ
  pub occurred_at : Time
  pub correlation_id : String
  pub causation_id : Option String
  pub status : Status
  pub retry_count : ℤ
  pub next_send_at : Time
  pub created_at : Time

pub record NewEntryInput : Type 0 where
  pub aggregate_type : String
  pub aggregate_id : Uuid
  pub event_type : String
  pub version : ℤ
  pub payload : List ℕ
  pub occurred_at : Time
  pub correlation_id : String
  pub causation_id : Option String

-- `len(payload) == 0`
abbrev is_empty : List ℕ → Bool
is_empty [] = true
is_empty (b ∷ bs) = false

unfoldable pub new_entry : Uuid → Time → NewEntryInput → Result Entry
new_entry fresh now input = do
  fail_if
      (str_eq input.aggregate_type ""
        || input.aggregate_id == nil_uuid
        || str_eq input.event_type ""
        || leb_ℤ input.version (pos 0)
        || is_empty input.payload
        || input.occurred_at == 0
        || str_eq input.correlation_id "")
      (Error.outbox OutboxError.invalid_input)
  ok (record {
    id = fresh;
    aggregate_type = input.aggregate_type;
    aggregate_id = input.aggregate_id;
    event_type = input.event_type;
    version = input.version;
    payload = input.payload;
    occurred_at = input.occurred_at;
    correlation_id = input.correlation_id;
    causation_id = input.causation_id;
    status = pending;
    retry_count = pos 0;
    next_send_at = now;
    created_at = now;
  })

-- `EntryFromPersistence`
abbrev pub entry_from_persistence :
    Uuid
    → String
    → Uuid
    → String
    → ℤ
    → List ℕ
    → Time
    → String
    → Option String
    → Status
    → ℤ
    → Time
    → Time
    → Entry
entry_from_persistence id aggregate_type aggregate_id event_type version payload occurred_at
      correlation_id causation_id status retry_count next_send_at created_at =
    record {
      id = id;
      aggregate_type = aggregate_type;
      aggregate_id = aggregate_id;
      event_type = event_type;
      version = version;
      payload = payload;
      occurred_at = occurred_at;
      correlation_id = correlation_id;
      causation_id = causation_id;
      status = status;
      retry_count = retry_count;
      next_send_at = next_send_at;
      created_at = created_at;
    }

unfoldable pub mark_published : Entry → Entry
mark_published e = record e { status = published }

unfoldable pub schedule_retry : Entry → Time → Result Entry
schedule_retry e next = do
  fail_if (not (is_pending e.status)) (Error.outbox OutboxError.invalid_transition)
  ok (record e { retry_count = add64 e.retry_count (pos 1); next_send_at = next })
