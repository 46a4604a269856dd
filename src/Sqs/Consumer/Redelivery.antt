-- ===== src/Sqs/Consumer/Redelivery.antt =====
-- A message that comes again: nothing is submitted twice, and other content is not accepted.
use mathlib.Core.Path.{subst}
use croupier.Prelude.{
  not-false, suc, String, ◌≡◌, refl, sym, ◌∙◌, Bool, true, false, not, ◌==◌, ◌⊎◌, inl, inr, Option,
  none, some, find,
}
use croupier.Errors.{Result, ok, err, ok_injective}
use croupier.Values.{Digest}
use croupier.Outbox.Inbox.{Inbox, is_completed}
use croupier.Store.Tables.{Db}
use croupier.Store.Monad.{World, idle, draw_uuid, attempt, ◌>>=◌}
use croupier.Store.Rules.{Ensures-pure, Ensures-raise}
use croupier.Store.Keeps.{Keeps-pure, Keeps-raise, Keeps-attempt}
use croupier.Store.Atomic.Undone.{
  Final, OrUndone, OrUndone-reads, OrUndone-bind, OrUndone-if, OrUndone-lift,
}
use croupier.Store.Outbox.{has_message}
use croupier.App.Env.{Env}
use croupier.Sqs.{Envelope, Delivery, Settings, Observation, check_envelope}
use croupier.Sqs.Consumer.{unless_completed, handle_envelope, handle, process_message, was_handled}
use croupier.Sqs.Consumer.Books.{find_inbox-Keeps, inbox_or_nil-Keeps}
use croupier.Sqs.Consumer.Commit.{Looked, find_inbox-Looked, Known, inbox_or_nil-Known}

-- what becomes of a delivery with this hash whose message the inbox has as `i`
abbrev pub Deduplicated : Inbox → Db → Digest → Result Bool × World → Type 0
Deduplicated i before hash (ok deleted, w) =
    (w.db ≡ before) × (w.session ≡ idle) × (deleted ≡ true → (i.payload_hash == hash) ≡ true)
Deduplicated i before hash (err e, w) = ⊥

module _ (env : Env) (c : Settings) (e : Envelope) (i : Inbox) (d : Db)
    (known : some i ≡ find (has_message c.consumer_name e.message_id) d.inbox) where
  -- the content is the same
  abbrev Same : Digest → Type 0
  Same hash = (i.payload_hash == hash) ≡ true

  module _ (hash : Digest)
      (again : ((i.payload_hash == hash) ≡ false) ⊎ (is_completed i ≡ true)) where
    -- neither other content nor the same content again is submitted
    refuted : {F : Type 0} → not (i.payload_hash == hash) ≡ false → is_completed i ≡ false → F
    refuted same open_entry = elim again [
      | inl other ↦ absurd (cc (not-false _ same, other))
      | inr done ↦ absurd (cc)
    ]

    unless_completed_again :
        (id : String)
        → OrUndone d (unless_completed env c e hash id (some i)) (λ _ db. (db ≡ d) × Same hash)
    unfolding unless_completed
    unless_completed_again id =
        OrUndone-if (not (i.payload_hash == hash))
          (λ _. OrUndone-reads _ (Keeps-raise _) (Ensures-raise _))
          (λ same.
            OrUndone-if (is_completed i)
              (λ _.
                OrUndone-reads _ (Keeps-pure _) (Ensures-pure none (λ db s. (s, not-false _ same))))
              (λ open_entry. refuted same open_entry))

    handle_envelope_again :
        (id : String) → OrUndone d (handle_envelope env c e hash id) (λ _ db. (db ≡ d) × Same hash)
    unfolding handle_envelope
    handle_envelope_again id =
        OrUndone-bind {F = Looked env c d e.message_id}
          (OrUndone-reads _ (Keeps-attempt (find_inbox-Keeps _ _))
            (find_inbox-Looked env c e.message_id d))
          λ found seen.
            OrUndone-bind {F = Known env c d e.message_id}
              (OrUndone-reads _ (inbox_or_nil-Keeps found)
                (inbox_or_nil-Known env c d e.message_id found seen))
              λ k held.
                subst
                  (λ k.
                    OrUndone d (unless_completed env c e hash id k) (λ _ db. (db ≡ d) × Same hash))
                  (known ∙ sym held) (unless_completed_again id)

  final_at :
      (hash : Digest) (r : Result (Option Observation)) (w : World)
      → Final d (λ _ db. (db ≡ d) × Same hash) (r, w)
      → Deduplicated i d hash (ok (was_handled r), w)
  final_at hash (ok o) w ((s, same), i) = (s, i, λ _. same)
  final_at hash (err x) w (inl s, i) = (s, i, λ h. absurd (cc))
  final_at hash (err x) w (inr (n, is, o, sh), i) = (sh.0, i, λ h. absurd (cc))

  handle_again :
      (delivery : Delivery) (id : String)
      → c.codec.decode_envelope delivery.body ≡ ok e
      → ((i.payload_hash == c.codec.body_hash delivery.body) ≡ false) ⊎ (is_completed i ≡ true)
      → OrUndone d
          (handle env c delivery id)
          (λ _ db. (db ≡ d) × Same (c.codec.body_hash delivery.body))
  unfolding handle
  handle_again delivery id decoded again =
      OrUndone-bind (OrUndone-lift (c.codec.decode_envelope delivery.body)) λ e' decoded'.
        OrUndone-bind (OrUndone-lift (check_envelope e')) λ _ checked.
          subst
            (λ x.
              OrUndone d (handle_envelope env c x (c.codec.body_hash delivery.body) id)
                (λ _ db. (db ≡ d) × Same (c.codec.body_hash delivery.body)))
            (ok_injective (sym decoded ∙ decoded'))
            (handle_envelope_again (c.codec.body_hash delivery.body) again id)

-- When the inbox has an entry of the message, completed or with the hash of another body, then outside
-- a transaction and with any faults `processMessage` submits nothing: the tables are what they were. It
-- deletes the message only when the entry has the hash of this body.
pub process_message-Deduplicates :
    (env : Env) (c : Settings) (delivery : Delivery) (e : Envelope) (i : Inbox) (w : World)
    → w.session ≡ idle
    → c.codec.decode_envelope delivery.body ≡ ok e
    → some i ≡ find (has_message c.consumer_name e.message_id) w.db.inbox
    → ((i.payload_hash == c.codec.body_hash delivery.body) ≡ false) ⊎ (is_completed i ≡ true)
    → Deduplicated i w.db (c.codec.body_hash delivery.body) (process_message env c delivery w)
unfolding process_message draw_uuid attempt ◌>>=◌
process_message-Deduplicates env c delivery e i w s decoded known again =
    let id = env.uuid_text (env.new_uuid w.uuids) in
    let v = record w { uuids = suc w.uuids } in
    final_at env c e i w.db known (c.codec.body_hash delivery.body) (handle env c delivery id v).0
      (handle env c delivery id v).1
      ((handle_again env c e i w.db known delivery id decoded again).at v s refl)
