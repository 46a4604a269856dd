-- ===== src/Sqs/Consumer/Done.antt =====
-- The inbox entry of a message, from its creation to its completion.
use croupier.Prelude.{
  Option, none, refl, Bool-cases, inl, inr, String, ◌≡◌, true, some, List, [], ◌∷◌, find,
  find-holds, eq_iff, arith,
}
use croupier.Errors.{ok, ok_injective}
use croupier.Values.{Digest, Time}
use croupier.Outbox.Inbox.{Inbox, new, is_completed, mark_completed}
use mathlib.Core.Path.{subst}
use croupier.Store.Rules.{Ensures, Ensures-exec}
use croupier.Store.Outbox.{has_message, upsert_inbox, inbox_row, save_inbox}
use mathlib.Core.Option.{map}
use croupier.Values.{micros, is_some}

-- the inbox says that the consumer has completed the message
pub record IsDone (consumer_name message_id : String) (inbox : List Inbox) : Type 0 where
  pub entry : Inbox
  pub found : find (has_message consumer_name message_id) inbox ≡ some entry
  pub completed : is_completed entry ≡ true

-- `entry` is that of the message
abbrev pub IsOf : String → String → Inbox → Type 0
IsOf consumer_name message_id entry =
    (entry.consumer_name ≡ consumer_name) × (entry.message_id ≡ message_id)

has_own : (i : Inbox) → has_message i.consumer_name i.message_id i ≡ true
has_own i = ground (arith, eq_iff i.consumer_name i.consumer_name, eq_iff i.message_id i.message_id)

kept_completed : (o : Option Time) → is_some o ≡ true → is_some (map micros o) ≡ true
kept_completed none h = h
kept_completed (some t) h = refl

upsert-IsDone :
    (i : Inbox) (inbox : List Inbox)
    → is_completed i ≡ true
    → IsDone i.consumer_name i.message_id (upsert_inbox i inbox)
unfolding upsert_inbox
upsert-IsDone i [] h = record {
  entry = inbox_row i;
  found = ground (arith, has_own i);
  completed = kept_completed i.completed_at h;
}
upsert-IsDone i (j ∷ is) h = elim (Bool-cases (has_message i.consumer_name i.message_id j)) [
  | inl same ↦ record {
    entry = record j { completed_at = map micros i.completed_at };
    found = ground arith;
    completed = kept_completed i.completed_at h;
  }
  | inr other ↦
      let rest = upsert-IsDone i is h in
      record {
        entry = rest.entry;
        found = (let e = rest.found in ground arith);
        completed = rest.completed;
      }
]

pub marked-IsOf :
    (name id : String) (now : Time) (i : Inbox) {j : Inbox}
    → mark_completed now i ≡ ok j
    → IsOf name id i
    → IsOf name id j × (is_completed j ≡ true)
unfolding mark_completed
marked-IsOf name id now i {j} h (a, b) = ground arith

pub new-IsOf :
    (name id : String) (now : Time) (hash : Digest) {j : Inbox}
    → new now (record { consumer_name = name; message_id = id; payload_hash = hash }) ≡ ok j
    → IsOf name id j
unfolding new
new-IsOf name id now hash h = ground arith

pub found-IsOf :
    (name id : String) (inbox : List Inbox) (i : Inbox)
    → find (has_message name id) inbox ≡ some i
    → IsOf name id i
found-IsOf name id inbox i h =
    let p = find-holds (has_message name id) inbox h in
    ground (arith, eq_iff i.consumer_name name, eq_iff i.message_id id)

pub saved-IsDone :
    (i : Inbox)
    → is_completed i ≡ true
    → Ensures (λ _. Unit {0}) (save_inbox i) (λ _ db. IsDone i.consumer_name i.message_id db.inbox)
unfolding save_inbox
saved-IsDone i h = Ensures-exec _ (λ db db' e _.
    subst (λ x. IsDone i.consumer_name i.message_id x.inbox)
      {x = record db { inbox = upsert_inbox i db.inbox }} (ok_injective e)
      (upsert-IsDone i db.inbox h))
