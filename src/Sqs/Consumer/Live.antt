-- ===== src/Sqs/Consumer/Live.antt =====
-- internal/sqs/consumer.go: the message of a bet or a win that nothing stands against is settled on
-- its first delivery.
use mathlib.Core.Path.{subst}
use croupier.Prelude.{
  suc, ◌≡◌, Bool, refl, sym, ap, ◌∙◌, arith, true, false, none, some, [], ◌∷◌, find, String, str_eq,
  eq_iff, List, Option,
}
use croupier.Errors.{Error, Result, ok, err, inbox_entry_not_found}
use croupier.Values.{Digest, Time, micros}
use mathlib.Core.Option.{map}
use croupier.Outbox.Inbox.{Inbox, new, mark_completed, is_completed}
use croupier.Store.Tables.{Db, WalletRow}
use croupier.Store.Monad.{World, idle, opened}
use croupier.Store.Quiet.{
  quiet, quiet_eta, Runs, Runs-bind, Runs-pure, Runs-lift, Runs-exec, Runs-attempt,
  Runs-attempt-query, Runs-within_tx, Runs-read_clock, Runs-draw_uuid,
}
use croupier.Store.Outbox.{
  has_message, upsert_inbox, inbox_row, save_inbox, find_inbox, inbox_or_not_found,
}
use croupier.App.Env.{Env}
use croupier.App.Movement.{SubmitInput, SubmitResult}
use croupier.App.Movement.Lands.{Works}
use croupier.App.Submit.Offers.{IsOffered, IsOffered-inbox}
use croupier.App.Submit.Plays.{Affords}
use croupier.App.Submit.Lands.{affordable, submits}
use croupier.App.Submit.Live.{IsLanded, IsLanded-settled}
use croupier.Sqs.{Envelope, Delivery, Settings, check_envelope}
use croupier.Sqs.Consumer.{process_message, submit_input}

-- a completed entry of this message
abbrev IsDone : Settings → Envelope → Digest → Option Inbox → Type 0
IsDone c e hash none = ⊥
IsDone c e hash (some i) = (is_completed i ≡ true) × (i.payload_hash ≡ hash)

-- the submission of an envelope, under the correlation id that `processMessage` draws
abbrev pub submission_of : Env → Envelope → World → SubmitInput
submission_of env e w = submit_input e.message (env.uuid_text (env.new_uuid w.uuids))

-- the queue is asked to delete the message, which is completed, and its submission has landed
abbrev pub Delivered :
    Env → Settings → Delivery → Envelope → WalletRow → World → Result Bool × World → Type 0
Delivered env c d e row w (ok true, w') =
    (result : SubmitResult) × IsLanded env (submission_of env e w) row w result w'
    × IsDone c e (c.codec.body_hash d.body)
        (find (has_message c.consumer_name e.message_id) w'.db.inbox)
Delivered env c d e row w (ok false, w') = ⊥
Delivered env c d e row w (err x, w') = ⊥

text_refl : (s : String) → str_eq s s ≡ true
text_refl s = (eq_iff s s).1 refl

-- A new entry that is saved again, completed, is found completed.
saved_twice :
    (entry : Inbox) (t : Option Time) (is : List Inbox)
    → find (has_message entry.consumer_name entry.message_id) is ≡ none
    → find
        (has_message entry.consumer_name entry.message_id)
        (upsert_inbox (record entry { completed_at = t }) (upsert_inbox entry is))
      ≡ some (record (inbox_row entry) { completed_at = map micros t })
unfolding upsert_inbox
saved_twice entry t [] h = ground (arith, text_refl entry.consumer_name, text_refl entry.message_id)
saved_twice entry t (i ∷ is) h = ground (arith, saved_twice entry t is)

module _ (env : Env) (works : Works env) (c : Settings) (d : Delivery) (e : Envelope)
    (row : WalletRow) (w : World) (i : w.session ≡ idle) (no_faults : w.faults ≡ [])
    (named : str_eq c.consumer_name "" ≡ false) (decoded : c.codec.decode_envelope d.body ≡ ok e)
    (well_formed : check_envelope e ≡ ok tt)
    (unseen : find (has_message c.consumer_name e.message_id) w.db.inbox ≡ none)
    (offered : IsOffered env (submission_of env e w) row w.db (suc w.uuids))
    (affords : Affords e.message.kind row.balance e.message.money.amount) where
  abbrev fresh : Inbox
  fresh = record {
    consumer_name = c.consumer_name;
    message_id = e.message_id;
    payload_hash = c.codec.body_hash d.body;
    completed_at = none;
    created_at = env.clock w.readings;
  }

  abbrev begun : Db
  begun = record w.db { inbox = upsert_inbox fresh w.db.inbox }

  offered_begun : IsOffered env (submission_of env e w) row begun (suc w.uuids)
  offered_begun = IsOffered-inbox (upsert_inbox fresh w.db.inbox) offered

  unseen_lem :
      inbox_or_not_found (find (has_message c.consumer_name e.message_id) w.db.inbox)
      ≡ err (Error.app inbox_entry_not_found)
  unseen_lem = rw unseen refl

  named_message : str_eq e.message_id "" ≡ false
  unfolding check_envelope
  named_message = ground arith

  accepted :
      new (env.clock w.readings) (record {
        consumer_name = c.consumer_name;
        message_id = e.message_id;
        payload_hash = c.codec.body_hash d.body;
      })
      ≡ ok fresh
  unfolding new
  accepted = rw (named, named_message) refl

  -- Where no database call fails, the first delivery of a well-formed message with the submission of a
  -- bet or a win that nothing stands against and that the wallet affords ends with the deletion of the
  -- message: the inbox has it completed with the hash of its body, and the submission has landed as it
  -- does outside the consumer.
  pub process_message-Lands : Delivered env c d e row w (process_message env c d w)
  unfolding process_message save_inbox find_inbox mark_completed submit_input
  process_message-Lands =
      let (e1, e2, runs, t1, t2) =
        submits env works (submission_of env e w) row begun (suc w.uuids) (suc w.readings)
          offered_begun affords opened tt in
      let begins =
        Runs-bind _ (Runs-read_clock env.clock)
          (Runs-bind _ (Runs-lift accepted) (Runs-bind _ (Runs-exec _ refl) Runs-pure)) in
      let completes =
        Runs-bind _ (Runs-read_clock env.clock) (Runs-bind _ (Runs-lift refl) (Runs-exec _ refl)) in
      let delivered : Runs (process_message env c d) (quiet idle w.db w.uuids w.readings) true _ =
        Runs-bind _ (Runs-draw_uuid env.new_uuid) (
          Runs-bind _
            (Runs-attempt _ (
              Runs-bind _ (Runs-lift decoded) (
                Runs-bind _ (Runs-lift well_formed) (
                  Runs-bind _ (Runs-attempt-query _ tt unseen_lem) (
                    Runs-bind _ Runs-pure (
                      Runs-bind _
                        (Runs-within_tx tt
                          (Runs-bind _ begins (Runs-bind _ runs (Runs-bind _ completes Runs-pure))))
                        Runs-pure))))))
            Runs-pure) in
      subst (Delivered env c d e row w)
        (sym (ap (process_message env c d) (quiet_eta w i no_faults) ∙ delivered.runs))
        (
          _,
          IsLanded-settled env (submission_of env e w) row w (suc w.uuids) (suc w.readings) offered
              none (env.clock (suc w.readings)) (suc (suc w.readings))
              (affordable env works (submission_of env e w) row w.db (suc w.uuids) (suc w.readings)
                offered affords)
              e1 e2 _ _ _ t1 t2,
          subst (IsDone c e (c.codec.body_hash d.body))
              (sym (saved_twice fresh (some _) w.db.inbox unseen)) (refl, refl),
        )
