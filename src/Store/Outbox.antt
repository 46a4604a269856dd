-- ===== src/Store/Outbox.antt =====
-- internal/postgres/outbox_repository.go and internal/postgres/inbox_repository.go.
use croupier.Prelude.{
  ℕ, String, Bool, ◌&&◌, ◌==◌, ltb, leb, str_eq, Option, none, some, List, [], ◌∷◌, find,
  if◌then◌else◌,
}
use croupier.Errors.{Error, Result, ok, err, outbox_entry_not_found, inbox_entry_not_found}
use mathlib.Core.Option.{map}
use croupier.Values.{Time, micros}
use croupier.Outbox.{Entry, entry_from_persistence, is_pending}
use croupier.Outbox.Inbox.{Inbox, from_persistence}
use croupier.Store.Tables.{Db}
use croupier.Store.Monad.{App, pure, query, exec, read_clock, ◌>>=◌, ◌>>◌}

-- `ON CONFLICT (id) DO UPDATE SET`
abbrev update_entry : Entry → Entry → Entry
update_entry new old = record old {
  status = new.status;
  retry_count = new.retry_count;
  next_send_at = micros new.next_send_at;
}

-- the values of the INSERT
abbrev pub entry_row : Entry → Entry
entry_row e = record e {
  occurred_at = micros e.occurred_at;
  next_send_at = micros e.next_send_at;
  created_at = micros e.created_at;
}

unfoldable pub upsert_entry : Entry → List Entry → List Entry
upsert_entry new [] = entry_row new ∷ []
upsert_entry new (e ∷ es) =
    if e.id == new.id then update_entry new e ∷ es else e ∷ upsert_entry new es

abbrev pub store_entry : Entry → Db → Result Db
store_entry e db = ok (record db { outbox = upsert_entry e db.outbox })

-- `SaveAll`: one statement for each entry
unfoldable pub save_all : List Entry → App (Unit {0})
save_all [] = pure tt
save_all (e ∷ es) = exec (store_entry e) >> save_all es

abbrev pub is_due : Time → Entry → Bool
is_due now e = is_pending e.status && leb e.next_send_at now

abbrev pub earlier : Entry → Option Entry → Entry
earlier e none = e
earlier e (some f) = if ltb f.created_at e.created_at then f else e

-- `ORDER BY created_at LIMIT 1` of the due entries
unfoldable pub oldest_due : Time → List Entry → Option Entry
oldest_due now [] = none
oldest_due now (e ∷ es) =
    let rest = oldest_due now es in if is_due now e then some (earlier e rest) else rest

-- `scanOutboxEntry`, of a row that holds the columns of the entry; the payload is a JSONB column, of
-- which `jsonb_text` is the text
abbrev pub scan_entry : (List ℕ → List ℕ) → Entry → Entry
scan_entry jsonb_text r =
    entry_from_persistence r.id r.aggregate_type r.aggregate_id r.event_type r.version
      (jsonb_text r.payload) r.occurred_at r.correlation_id r.causation_id r.status r.retry_count
      r.next_send_at r.created_at

abbrev pub or_not_found : (List ℕ → List ℕ) → Option Entry → Result Entry
or_not_found jsonb_text none = err (Error.app outbox_entry_not_found)
or_not_found jsonb_text (some e) = ok (scan_entry jsonb_text e)

-- `FindDueForUpdate`; the server's `now()` is one reading of the clock
unfoldable pub find_due_for_update : (List ℕ → List ℕ) → (ℕ → ℕ) → App Entry
unfolding oldest_due
find_due_for_update jsonb_text clock = do
  now ← read_clock clock
  query (λ db. or_not_found jsonb_text (oldest_due now db.outbox))

abbrev pub has_message : String → String → Inbox → Bool
has_message consumer_name message_id i =
    str_eq i.consumer_name consumer_name && str_eq i.message_id message_id

abbrev pub inbox_or_not_found : Option Inbox → Result Inbox
inbox_or_not_found none = err (Error.app inbox_entry_not_found)
inbox_or_not_found (some i) =
    ok (from_persistence i.consumer_name i.message_id i.payload_hash i.completed_at i.created_at)

-- `FindByConsumerAndMessage`
unfoldable pub find_inbox : String → String → App Inbox
find_inbox consumer_name message_id =
    query (λ db. inbox_or_not_found (find (has_message consumer_name message_id) db.inbox))

-- the values of the INSERT
abbrev pub inbox_row : Inbox → Inbox
inbox_row i = record i {
  completed_at = map micros i.completed_at;
  created_at = micros i.created_at;
}

-- `ON CONFLICT (consumer_name, message_id) DO UPDATE SET`
unfoldable pub upsert_inbox : Inbox → List Inbox → List Inbox
upsert_inbox new [] = inbox_row new ∷ []
upsert_inbox new (i ∷ is) =
    if has_message new.consumer_name new.message_id i
    then record i { completed_at = map micros new.completed_at } ∷ is
    else i ∷ upsert_inbox new is

-- `Save`
unfoldable pub save_inbox : Inbox → App (Unit {0})
unfolding upsert_inbox
save_inbox i = exec (λ db. ok (record db { inbox = upsert_inbox i db.inbox }))
