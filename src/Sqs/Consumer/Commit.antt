-- ===== src/Sqs/Consumer/Commit.antt =====
-- What a delivery leaves behind: the submission and the completed inbox entry together, or nothing.
use croupier.Prelude.{
  suc, inl, inr, String, ◌≡◌, refl, sym, ap, ◌⊎◌, ◌∙◌, Bool, true, false, not, ◌==◌, Option, none,
  some, find,
}
use croupier.Errors.{Error, AppError, Result, ok, err}
use croupier.Values.{Digest}
use croupier.Outbox.Inbox.{Inbox, is_completed}
use mathlib.Core.Path.{subst}
use croupier.Store.Tables.{Db}
use croupier.Store.Monad.{World, App, attempt, draw_uuid, idle, ◌>>=◌}
use croupier.Store.Rules.{
  After, Ensures, Ensures-pure, Ensures-bind, Ensures-bind-lift, Ensures-read_clock, Ensures-given,
  Ensures-weaken, Ensures-raise, Ensures-attempt-query, IsFault, no_connection, broken,
}
use croupier.Store.Keeps.{Keeps-pure, Keeps-raise, Keeps-attempt}
use croupier.Store.Atomic.Undone.{
  Final, OrUndone, OrUndone-reads, OrUndone-within_tx, OrUndone-bind, OrUndone-map, OrUndone-if,
  OrUndone-lift, OrUndone-weaken,
}
use croupier.App.Env.{Env}
use croupier.Sqs.{Envelope, Delivery, Settings, check_envelope, Observation}
use croupier.Sqs.Consumer.{
  inbox_or_nil, recorded, complete, process_once, submit_message, unless_completed, handle_envelope,
  handle, process_message, was_handled,
}
use croupier.Sqs.Consumer.Books.{find_inbox-Keeps, inbox_or_nil-Keeps}
use croupier.Store.Outbox.{has_message, inbox_or_not_found, save_inbox, find_inbox}
use croupier.Sqs.Consumer.Done.{IsDone, IsOf, marked-IsOf, new-IsOf, found-IsOf, saved-IsDone}

-- What holds whatever the tables are holds after any call.
constant : {A : Type 0} (F : Type 0) (m : App A) → Ensures (λ _. F) m (λ _ _. F)
constant F m = record { at = λ w p. let (r, w') = m w in after r w' p }
  where
    after : {A : Type 0} (r : Result A) (w : World) → F → After (λ _ _. F) (r, w)
    after (ok a) w p = p
    after (err e) w p = tt

module _ (env : Env) (c : Settings) where
  recorded-IsOf :
      (id : String) (hash : Digest) (known : Option Inbox)
      → ((i : Inbox) → known ≡ some i → IsOf c.consumer_name id i)
      → Ensures (λ _. Unit {0}) (recorded env c id hash known) (λ i _. IsOf c.consumer_name id i)
  unfolding recorded
  recorded-IsOf id hash (some entry) h = Ensures-pure entry (λ _ _. h entry refl)
  recorded-IsOf id hash none h = Ensures-bind (Ensures-read_clock _) λ now.
      Ensures-bind-lift _ λ entry made.
        let of = new-IsOf c.consumer_name id now hash made in
        Ensures-bind (constant (Unit {0}) (save_inbox entry)) λ _. Ensures-pure entry (λ _ _. of)

  complete-IsDone :
      (id : String) (i : Inbox)
      → Ensures
          (λ _. IsOf c.consumer_name id i)
          (complete env c i)
          (λ _ db. IsDone c.consumer_name id db.inbox)
  unfolding complete
  complete-IsDone id i = Ensures-bind (Ensures-read_clock _) λ now.
      Ensures-bind-lift _ λ completed marked. Ensures-given λ db of.
        let ((name, message), done) = marked-IsOf c.consumer_name id now i marked of in
        Ensures-weaken _ (saved-IsDone completed done) (λ _ _. tt)
          (λ _ db h.
            subst (λ n. IsDone n id db.inbox) name
              (subst (λ m. IsDone completed.consumer_name m db.inbox) message h))

  process_once-IsDone :
      (e : Envelope) (hash : Digest) (id : String) (known : Option Inbox)
      → ((i : Inbox) → known ≡ some i → IsOf c.consumer_name e.message_id i)
      → Ensures
          (λ _. Unit {0})
          (process_once env c e hash id known)
          (λ _ db. IsDone c.consumer_name e.message_id db.inbox)
  unfolding process_once
  process_once-IsDone e hash id known h =
      Ensures-bind (recorded-IsOf e.message_id hash known h) λ entry.
        Ensures-bind (constant (IsOf c.consumer_name e.message_id entry) _) λ result.
          Ensures-bind (complete-IsDone e.message_id entry)
            λ _. Ensures-pure result (λ db done. done)

  -- what the consumer has found of the message in the tables `d`
  abbrev pub Known : Db → String → Option Inbox → Type 0
  Known d id known = known ≡ find (has_message c.consumer_name id) d.inbox

  -- the lookup's result: what the tables hold, or a fault
  abbrev pub Looked : Db → String → Result Inbox → Type 0
  Looked d id r =
      (r ≡ inbox_or_not_found (find (has_message c.consumer_name id) d.inbox))
      ⊎ ((e : Error) × IsFault e × (r ≡ err e))

  submit_message-IsDone :
      (d : Db) (e : Envelope) (hash : Digest) (id : String) (known : Option Inbox)
      → ((i : Inbox) → known ≡ some i → IsOf c.consumer_name e.message_id i)
      → OrUndone d
          (submit_message env c e hash id known)
          (λ _ db. IsDone c.consumer_name e.message_id db.inbox)
  unfolding submit_message
  submit_message-IsDone d e hash id known h =
      OrUndone-map _ _
        (OrUndone-within_tx _
          (Ensures-weaken _ (process_once-IsDone e hash id known h) (λ _ _. tt) (λ _ _ done. done)))
        (λ _ _ done. done)

  unless_completed-IsDone :
      (d : Db) (e : Envelope) (hash : Digest) (id : String) (known : Option Inbox)
      → Known d e.message_id known
      → OrUndone d
          (unless_completed env c e hash id known)
          (λ _ db. IsDone c.consumer_name e.message_id db.inbox)
  unfolding unless_completed
  unless_completed-IsDone d e hash id none h =
      submit_message-IsDone d e hash id none (λ i e. absurd (cc))
  unless_completed-IsDone d e hash id (some entry) h =
      OrUndone-if (not (entry.payload_hash == hash))
        (λ _. OrUndone-reads _ (Keeps-raise _) (Ensures-raise _))
        (λ _.
          OrUndone-if (is_completed entry)
            (λ done. OrUndone-reads _ (Keeps-pure _) (
              Ensures-pure none (λ db same. record {
                entry = entry;
                found =
                    ap (λ x. find (has_message c.consumer_name e.message_id) x.inbox) same ∙ sym h;
                completed = done;
              })))
            (λ _.
              submit_message-IsDone d e hash id (some entry)
                (λ i same. found-IsOf c.consumer_name e.message_id d.inbox i (sym h ∙ same))))

  -- what the lookup makes of the tables `d`, but for a fault
  pub find_inbox-Looked :
      (id : String) (d : Db)
      → Ensures
          (λ db. db ≡ d)
          (attempt (find_inbox c.consumer_name id))
          (λ r db. (db ≡ d) × Looked d id r)
  unfolding find_inbox
  find_inbox-Looked id d =
      Ensures-attempt-query _
        (λ r db e same. (
          same,
          inl (
              sym e
              ∙ ap (λ x. inbox_or_not_found (find (has_message c.consumer_name id) x.inbox)) same),
        ))
        (λ e db fault same. (same, inr (e, fault, refl)))

  found_some : (o : Option Inbox) (i : Inbox) → ok i ≡ inbox_or_not_found o → some i ≡ o
  found_some none i h = absurd (cc)
  found_some (some j) i h = cc

  found_none :
      (o : Option Inbox)
      → err (Error.app AppError.inbox_entry_not_found) ≡ inbox_or_not_found o
      → none ≡ o
  found_none none h = refl
  found_none (some j) h = absurd (cc)

  no_fault :
      {F : Type 0} (r : Result Inbox) (e : Error)
      → IsFault e
      → r ≡ err (Error.app AppError.inbox_entry_not_found)
      → r ≡ err e
      → F
  no_fault r e no_connection h g = absurd (cc)
  no_fault r e (broken n) h g = absurd (cc)

  pub inbox_or_nil-Known :
      (d : Db) (id : String) (r : Result Inbox)
      → Looked d id r
      → Ensures (λ db. db ≡ d) (inbox_or_nil r) (λ known db. (db ≡ d) × Known d id known)
  inbox_or_nil-Known d id (ok i) (inl h) = Ensures-pure _ (λ db same. (same, found_some _ i h))
  inbox_or_nil-Known d id (ok i) (inr (e, fault, h)) = absurd (cc)
  inbox_or_nil-Known d id (err (Error.app AppError.inbox_entry_not_found)) (inl h) =
      Ensures-pure _ (λ db same. (same, found_none _ h))
  inbox_or_nil-Known d id (err (Error.app AppError.inbox_entry_not_found)) (inr (e, fault, h)) =
      no_fault _ e fault refl h
  inbox_or_nil-Known d id (err e) h = Ensures-raise e

  handle_envelope-IsDone :
      (d : Db) (e : Envelope) (hash : Digest) (id : String)
      → OrUndone d
          (handle_envelope env c e hash id)
          (λ _ db. IsDone c.consumer_name e.message_id db.inbox)
  unfolding handle_envelope
  handle_envelope-IsDone d e hash id =
      OrUndone-bind {F = Looked d e.message_id}
        (OrUndone-reads _ (Keeps-attempt (find_inbox-Keeps _ _)) (find_inbox-Looked e.message_id d))
        λ found seen.
          OrUndone-bind {F = Known d e.message_id}
            (OrUndone-reads _ (inbox_or_nil-Keeps found)
              (inbox_or_nil-Known d e.message_id found seen))
            λ known held. unless_completed-IsDone d e hash id known held

  -- the delivery carries an envelope that passes the tests, and the inbox has its message completed
  pub record IsHandled (d : Delivery) (db : Db) : Type 0 where
    pub envelope : Envelope
    pub decoded : c.codec.decode_envelope d.body ≡ ok envelope
    pub checked : check_envelope envelope ≡ ok tt
    pub done : IsDone c.consumer_name envelope.message_id db.inbox

  handle-IsHandled :
      (db : Db) (d : Delivery) (id : String)
      → OrUndone db (handle env c d id) (λ _ db'. IsHandled d db')
  unfolding handle
  handle-IsHandled db d id =
      OrUndone-bind (OrUndone-lift (c.codec.decode_envelope d.body)) λ e decoded.
        OrUndone-bind (OrUndone-lift (check_envelope e)) λ _ checked.
          OrUndone-weaken _ (handle_envelope-IsDone db e _ id)
            (λ _ x done. record { envelope = e; decoded = decoded; checked = checked; done = done })

  -- what `process_message` may end in, from the tables `before`
  abbrev pub Settled : Delivery → Db → Result Bool × World → Type 0
  Settled d before (ok true, w) = IsHandled d w.db × (w.session ≡ idle)
  Settled d before (ok false, w) = ((w.db ≡ before) ⊎ IsHandled d w.db) × (w.session ≡ idle)
  Settled d before (err e, w) = ⊥

  handled-Settled :
      (d : Delivery) (before : Db) (r : Result (Option Observation)) (w : World)
      → Final before (λ _ db. IsHandled d db) (r, w)
      → Settled d before (ok (was_handled r), w)
  handled-Settled d before (ok o) w h = h
  handled-Settled d before (err e) w (inl same, i) = (inl same, i)
  handled-Settled d before (err e) w (inr (n, is, o, h), i) = (inr h, i)

  -- Outside a transaction, with any delivery and any faults, `processMessage` ends without an error in
  -- one of two ways: it deletes the message, and then its envelope has passed the tests and the inbox
  -- holds the message as completed; or it does not, and then either the tables are what they were, or
  -- the same is so of the message as where it is deleted, as after a commit whose acknowledgement was
  -- lost. In each case no transaction is open.
  pub process_message-Settles :
      (d : Delivery) (w : World) → w.session ≡ idle → Settled d w.db (process_message env c d w)
  unfolding process_message draw_uuid attempt ◌>>=◌
  process_message-Settles d w i =
      let id = env.uuid_text (env.new_uuid w.uuids) in
      let v = record w { uuids = suc w.uuids } in
      handled-Settled d w.db (handle env c d id v).0 (handle env c d id v).1
        ((handle-IsHandled w.db d id).at v i refl)
