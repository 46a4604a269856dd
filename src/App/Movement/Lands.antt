-- ===== src/App/Movement/Lands.antt =====
-- internal/app/wager_submit.go: the run of a movement that meets no failure.
use croupier.Prelude.{
  ℕ, suc, String, ◌≡◌, ◌≢◌, refl, false, str_eq, Option, none, some, List, ◌∷◌, arith,
}
use croupier.Errors.{ok}
use croupier.Values.{Uuid, nil_uuid, Time}
use croupier.Wallet.{Wallet}
use croupier.Wallet.Ledger.{Direction, new_ledger_entry}
use croupier.Wallet.Balance.{moved, entry_of, the_entry}
use croupier.Wager.{Transaction, processed, mark_processed, is_terminal}
use croupier.Outbox.{Entry, NewEntryInput, new_entry, pending}
use croupier.Prelude.Int.{ℤ, pos}
use croupier.Store.Tables.{Db}
use croupier.Store.Monad.{opened, Session}
use croupier.Store.Quiet.{
  quiet, Runs, Runs-bind, Runs-pure, Runs-lift, Runs-exec, Runs-draw_uuid, Runs-read_clock,
}
use croupier.Store.Wallets.{store_wallet, save_wallet}
use croupier.Store.Entries.{store_ledger_entry, save_ledger_entry}
use croupier.Store.Wagers.{store_wager, save_wager}
use croupier.Store.Outbox.{upsert_entry, store_entry, save_all}
use croupier.App.Env.{Env, EventData, processed_data, balance_changed_data}
use croupier.App.Events.{new_event, new_processed_event, new_balance_changed_event}
use croupier.App.Movement.{record_movement, first_processing}

-- What the use cases rely on of the clock, of `uuid.New` and of `json.Marshal`: a time is never the
-- zero time, an id never nil, and the JSON of an event exists and is not empty.
pub record Works (env : Env) : Type 0 where
  pub clock : (n : ℕ) → env.clock n ≢ 0
  pub new_uuid : (n : ℕ) → env.new_uuid n ≢ nil_uuid
  pub marshal : (e : EventData) → (b : ℕ) × (bs : List ℕ) × (env.marshal e ≡ ok (b ∷ bs))

-- the entry of an accepted input
abbrev the_event : Uuid → Time → NewEntryInput → Entry
the_event fresh now input = record {
  id = fresh;
  aggregate_type = input.aggregate_type;
  aggregate_id = input.aggregate_id;
  event_type = input.event_type;
  version = input.version;
  payload = input.payload;
  occurred_at = input.occurred_at;
  correlation_id = input.correlation_id;
  causation_id = input.causation_id;
  status = pending;
  retry_count = pos 0;
  next_send_at = now;
  created_at = now;
}

-- a pending event of this type, under this correlation id, caused by this event
pub record IsEvent (e : Entry) (event_type correlation_id : String) (causation_id : Option String)
    : Type 0 where
  pub typed : e.event_type ≡ event_type
  pub correlated : e.correlation_id ≡ correlation_id
  pub caused : e.causation_id ≡ causation_id
  pub status : e.status ≡ pending

accepted_entry :
    (fresh : Uuid) (now : Time) (input : NewEntryInput) (b : ℕ) (bs : List ℕ)
    → str_eq input.aggregate_type "" ≡ false
    → input.aggregate_id ≢ nil_uuid
    → str_eq input.event_type "" ≡ false
    → input.version ≡ pos 1
    → input.payload ≡ b ∷ bs
    → input.occurred_at ≢ 0
    → str_eq input.correlation_id "" ≡ false
    → (e : Entry) × (new_entry fresh now input ≡ ok e)
      × IsEvent e input.event_type input.correlation_id input.causation_id
unfolding new_entry
accepted_entry fresh now input b bs t a k v p o c = (
  the_event fresh now input,
  ground arith,
  record { typed = refl; correlated = refl; caused = refl; status = refl },
)

-- the transaction behind a movement at the time `now`
abbrev pub settled : Transaction → Time → Transaction
settled tx now = record tx { status = processed; updated_at = now }

module _ (env : Env) (works : Works env) (correlation_id : String)
    (correlated : str_eq correlation_id "" ≡ false) where
  pub IsEvent-Runs :
      (aggregate_type event_type : String) (aggregate_id : Uuid) (e : EventData)
      (causation_id : Option String)
      → str_eq aggregate_type "" ≡ false
      → str_eq event_type "" ≡ false
      → aggregate_id ≢ nil_uuid
      → (s : Session) (db : Db) (u r : ℕ)
      → (event : Entry) × Runs
          (new_event env aggregate_type aggregate_id event_type e correlation_id causation_id)
          (quiet s db u r)
          event
          (quiet s db (suc u) (suc (suc r)))
        × IsEvent event event_type correlation_id causation_id
  unfolding new_event
  IsEvent-Runs aggregate_type event_type aggregate_id e causation_id t k a s db u r =
      let (b, bs, json) = works.marshal e in
      let (event, made, typed) =
        accepted_entry (env.new_uuid u) (env.clock (suc r))
          (record {
            aggregate_type = aggregate_type;
            aggregate_id = aggregate_id;
            event_type = event_type;
            version = pos 1;
            payload = b ∷ bs;
            occurred_at = env.clock r;
            correlation_id = correlation_id;
            causation_id = causation_id;
          })
          b bs t a k refl refl (works.clock r) correlated in
      (
        event,
        Runs-bind _ (Runs-lift json) (
            Runs-bind _ (Runs-read_clock env.clock) (
              Runs-bind _ (Runs-read_clock env.clock)
                (Runs-bind _ (Runs-draw_uuid env.new_uuid) (Runs-lift made)))),
        typed,
      )

  module _ (tx : Transaction) (direction : Direction) (w : Wallet) (z : ℤ) (u r : ℕ)
      (open_tx : is_terminal tx.status ≡ false)
      (entered : new_ledger_entry
          (env.new_uuid u)
          (env.clock r)
          (entry_of direction tx.id tx.amount w (moved w z))
        ≡ ok (
            the_entry
              (env.new_uuid u)
              (env.clock r)
              (entry_of direction tx.id tx.amount w (moved w z))))
      (has_id : w.id ≢ nil_uuid) (has_tx : tx.id ≢ nil_uuid) (db db1 db2 db3 : Db)
      (first : store_wager env.digest (settled tx (env.clock (suc r))) db ≡ ok db1)
      (second : store_wallet (moved w z) db1 ≡ ok db2)
      (third : store_ledger_entry
          (the_entry
            (env.new_uuid u)
            (env.clock r)
            (entry_of direction tx.id tx.amount w (moved w z)))
          db2
        ≡ ok db3) where
    pub record_movement-Runs :
        (e1 e2 : Entry) × Runs
          (record_movement env tx correlation_id direction w (moved w z))
          (quiet opened db u r)
          (first_processing (settled tx (env.clock (suc r))) (moved w z).balance)
          (quiet opened
            (record db3 { outbox = upsert_entry e2 (upsert_entry e1 db3.outbox) })
            (suc (suc (suc u)))
            (suc (suc (suc (suc (suc (suc r)))))))
        × IsEvent e1 "WagerTransactionProcessed" correlation_id none
        × IsEvent e2 "WalletBalanceChanged" correlation_id (some (env.uuid_text e1.id))
    unfolding record_movement new_processed_event new_balance_changed_event mark_processed
        save_wager save_wallet save_ledger_entry save_all
    record_movement-Runs =
        let (e1, announces, t1) =
          IsEvent-Runs "WagerTransaction" "WagerTransactionProcessed" tx.id
            (processed_data tx.id tx.kind tx.amount) none refl refl has_tx opened db (suc u)
            (suc (suc r)) in
        let entry =
          the_entry (env.new_uuid u) (env.clock r)
            (entry_of direction tx.id tx.amount w (moved w z)) in
        let (e2, changes, t2) =
          IsEvent-Runs "Wallet" "WalletBalanceChanged" w.id
            (balance_changed_data w.id entry.transaction_id entry.direction entry.amount
              entry.balance_before entry.balance_after (moved w z).version)
            (some (env.uuid_text e1.id)) refl refl has_id opened db (suc (suc u))
            (suc (suc (suc (suc r)))) in
        (
          e1,
          e2,
          Runs-bind _ (Runs-read_clock env.clock) (
              Runs-bind _ (Runs-draw_uuid env.new_uuid) (
                Runs-bind _ (Runs-lift entered) (
                  Runs-bind _ (Runs-read_clock env.clock) (
                    Runs-bind _ (Runs-lift (rw open_tx refl)) (
                      Runs-bind _ announces (
                        Runs-bind _ changes (
                          Runs-bind _ (Runs-exec _ first) (
                            Runs-bind _ (Runs-exec _ second) (
                              Runs-bind _ (Runs-exec _ third) (
                                Runs-bind _
                                  (Runs-bind _ (Runs-exec (store_entry e1) refl)
                                    (Runs-bind _ (Runs-exec (store_entry e2) refl) Runs-pure))
                                  Runs-pure)))))))))),
          t1,
          t2,
        )
