-- ===== src/App/Worker/Relay.antt =====
-- internal/app/outbox_worker.go: what one run of the relay does to the tables.
use mathlib.Core.Path.{subst}
use croupier.Prelude.{
  suc, ℕ, List, ap, ◌≡◌, refl, sym, ◌∙◌, Bool, true, false, Option, none, some, [], ◌∷◌, ◌⊎◌, inl,
  inr,
}
use croupier.Prelude.Int.{ℤ}
use croupier.Errors.{Error, AppError, Result, ok, err, ok_injective}
use croupier.Values.{Time}
use croupier.Outbox.{Entry, mark_published, schedule_retry}
use croupier.Store.Tables.{Db}
use croupier.Store.Monad.{
  World, Session, Fault, safe_to_retry, unsafe_to_retry, acknowledgement_lost, idle, opened,
  aborted, pure, lift, attempt, query, statement, deliver, first_fault, later_faults, read_clock,
  within_tx, within, begin, ◌>>=◌, ◌>>◌,
}
use croupier.Store.Rules.{
  Ensures, After, Ensures-bind, Ensures-bind-lift, Ensures-pure, Ensures-exec, IsFault,
  no_connection, broken, finish_at,
}
use croupier.Store.Outbox.{
  find_due_for_update, save_all, oldest_due, upsert_entry, store_entry, or_not_found, scan_entry,
}
use croupier.App.Env.{Env}
use croupier.App.Worker.{
  after_publish, publish_found, publish_due, run_once, add_time, backoff_delay,
}

module _ (jsonb_text : List ℕ → List ℕ) (publish : Entry → Option Error) (backoff_base : ℤ)
    (now later : Time) where
  -- What a run may do to the tables, with `now` for the lookup and `later` behind a refusal: nothing, with
  -- no entry due; mark the oldest due entry published, which the publisher has accepted; or put it off by
  -- its backoff, which the publisher has refused. The publisher is handed what the row is read as.
  pub data Relayed (db : Db) : Bool → Db → Type 0 where
    nothing_due : oldest_due now db.outbox ≡ none → Relayed db false db
    sent :
        (e : Entry)
        → oldest_due now db.outbox ≡ some e
        → publish (scan_entry jsonb_text e) ≡ none
        → Relayed db true (record db {
          outbox = upsert_entry (mark_published (scan_entry jsonb_text e)) db.outbox;
        })
    put_off :
        (e e' : Entry) (x : Error)
        → oldest_due now db.outbox ≡ some e
        → publish (scan_entry jsonb_text e) ≡ some x
        → schedule_retry
            (scan_entry jsonb_text e)
            (add_time later (backoff_delay backoff_base e.retry_count))
          ≡ ok e'
        → Relayed db true (record db { outbox = upsert_entry e' db.outbox })

module _ (env : Env) (publish : Entry → Option Error) (backoff_base : ℤ) (db0 : Db)
    (now later : Time) where
  abbrev with_entry : Entry → Db → Db
  with_entry e d = record d { outbox = upsert_entry e d.outbox }

  abbrev Same : Db → Type 0
  Same db = db ≡ db0

  abbrev Ends : Result Bool × World → Type 0
  Ends x = After (Relayed env.jsonb_text publish backoff_base now later db0) x

  save_one :
      (e : Entry)
      → Ensures Same
          (save_all (e ∷ []))
          (λ _ db. db ≡ record db0 { outbox = upsert_entry e db0.outbox })
  unfolding save_all
  save_one e =
      Ensures-bind {Q = λ _ db. db ≡ record db0 { outbox = upsert_entry e db0.outbox }}
        (Ensures-exec (store_entry e)
          (λ db db' stored same. sym (ok_injective stored) ∙ ap (λ d. with_entry e d) same))
        (λ _. Ensures-pure tt (λ db h. h))

  module _ (row : Entry) (due : oldest_due now db0.outbox ≡ some row) (v : World)
      (same : v.db ≡ db0) (reads : env.clock v.readings ≡ later) where
    abbrev e : Entry
    e = scan_entry env.jsonb_text row

    refused-Relayed :
        (x : Error)
        → publish e ≡ some x
        → Ensures Same
            (lift (
                schedule_retry e
                  (add_time (env.clock v.readings) (backoff_delay backoff_base e.retry_count)))
              >>= λ retried. save_all (retried ∷ []) >> pure true)
            (Relayed env.jsonb_text publish backoff_base now later db0)
    refused-Relayed x refused = Ensures-bind-lift _ λ e' retried. Ensures-bind (save_one e') λ _.
        Ensures-pure true (λ db is.
          subst (Relayed env.jsonb_text publish backoff_base now later db0 true) (sym is) (
            put_off row e' x due refused (
              subst
                (λ t.
                  schedule_retry e (add_time t (backoff_delay backoff_base e.retry_count)) ≡ ok e')
                reads retried)))

    accepted-Relayed :
        publish e ≡ none
        → Ensures Same
            (save_all (mark_published e ∷ []) >> pure true)
            (Relayed env.jsonb_text publish backoff_base now later db0)
    accepted-Relayed accepted = Ensures-bind (save_one (mark_published e)) λ _.
        Ensures-pure true (λ db is.
          subst (Relayed env.jsonb_text publish backoff_base now later db0 true) (sym is)
            (sent row due accepted))

    after_publish-Relayed :
        (o : Option Error) → publish e ≡ o → Ends (after_publish env publish backoff_base e o v)
    unfolding after_publish read_clock ◌>>=◌
    after_publish-Relayed (some x) refused =
        (refused-Relayed x refused).at (record v { readings = suc v.readings }) same
    after_publish-Relayed none accepted = (accepted-Relayed accepted).at v same

  -- what the lookup of the due entry gives
  abbrev Found : Result Entry → Type 0
  Found r =
      (r ≡ or_not_found env.jsonb_text (oldest_due now db0.outbox))
      ⊎ ((e : Error) × (r ≡ err e) × IsFault e)

  found_none :
      (o : Option Entry)
      → err (Error.app AppError.outbox_entry_not_found) ≡ or_not_found env.jsonb_text o
      → o ≡ none
  found_none none h = refl
  found_none (some e) h = cc

  found_some :
      (e : Entry) (o : Option Entry)
      → ok e ≡ or_not_found env.jsonb_text o
      → (row : Entry) × (o ≡ some row) × (scan_entry env.jsonb_text row ≡ e)
  found_some e none h = absurd (cc)
  found_some e (some row) h = (row, refl, sym (ok_injective h))

  publish_found-Relayed :
      (r : Result Entry) (v : World)
      → v.db ≡ db0
      → env.clock v.readings ≡ later
      → Found r
      → Ends (publish_found env publish backoff_base r v)
  unfolding publish_found
  publish_found-Relayed (ok e) v same reads (inl is) =
      let (row, due, read) = found_some e _ is in
      subst (λ x. Ends (after_publish env publish backoff_base x (publish x) v)) read
        (after_publish-Relayed row due v same reads (publish (scan_entry env.jsonb_text row)) refl)
  publish_found-Relayed (ok e) v same reads (inr (x, is, f)) = absurd (cc)
  publish_found-Relayed (err (Error.app AppError.outbox_entry_not_found)) v same reads (inl is) =
      subst (Relayed env.jsonb_text publish backoff_base now later db0 false) (sym same)
        (nothing_due (found_none _ is))
  publish_found-Relayed (err (Error.app AppError.outbox_entry_not_found)) v same reads
        (inr (x, is, no_connection)) =
      absurd (cc)
  publish_found-Relayed (err (Error.app AppError.outbox_entry_not_found)) v same reads
        (inr (x, is, broken n)) =
      absurd (cc)
  publish_found-Relayed (err x) v same reads f = tt

  -- The lookup leaves the tables and the readings of the clock.
  looked_up_at :
      (o : Option Fault) (v : World)
      → v.db ≡ db0
      → env.clock v.readings ≡ later
      → let (r, v') =
          deliver o (λ x. (or_not_found env.jsonb_text (oldest_due now x.db.outbox), x)) v in
        (v'.db ≡ db0) × (env.clock v'.readings ≡ later) × Found r
  looked_up_at none v same reads =
      (same, reads, inl (ap (λ d. or_not_found env.jsonb_text (oldest_due now d.outbox)) same))
  looked_up_at (some (safe_to_retry n)) v same reads = (same, reads, inr (_, refl, no_connection))
  looked_up_at (some (unsafe_to_retry n)) v same reads = (same, reads, inr (_, refl, broken n))
  looked_up_at (some (acknowledgement_lost n)) v same reads = (same, reads, inr (_, refl, broken n))

  asked_at :
      (s : Session) (v : World)
      → v.db ≡ db0
      → env.clock v.readings ≡ later
      → let (r, v') =
          statement s (λ x. (or_not_found env.jsonb_text (oldest_due now x.db.outbox), x)) v in
        (v'.db ≡ db0) × (env.clock v'.readings ≡ later) × Found r
  asked_at idle v same reads =
      looked_up_at (first_fault v.faults) (record v { faults = later_faults v.faults }) same reads
  asked_at opened v same reads =
      looked_up_at (first_fault v.faults) (record v { faults = later_faults v.faults }) same reads
  asked_at aborted v same reads = (same, reads, inr (_, refl, broken 0))

  publish_due-Relayed :
      (v : World)
      → v.db ≡ db0
      → env.clock v.readings ≡ now
      → env.clock (suc v.readings) ≡ later
      → Ends (publish_due env publish backoff_base v)
  unfolding publish_due find_due_for_update query attempt read_clock ◌>>=◌
  publish_due-Relayed v same first second =
      subst
        (λ t. Ends (
          let (r, v') =
            statement v.session (λ x. (or_not_found env.jsonb_text (oldest_due t x.db.outbox), x))
              (record v { readings = suc v.readings }) in
          publish_found env publish backoff_base r v'))
        (sym first)
        (let (same', reads, found) =
            asked_at v.session (record v { readings = suc v.readings }) same second in
          publish_found-Relayed _ _ same' reads found)

  begun_at :
      (before : World) (o : Option Fault) (v : World)
      → v.db ≡ db0
      → env.clock v.readings ≡ now
      → env.clock (suc v.readings) ≡ later
      → Ends (begin before o (publish_due env publish backoff_base) v)
  begun_at before none v same first second =
      finish_at (Relayed env.jsonb_text publish backoff_base now later db0) before _ _
        (publish_due-Relayed (record v { session = opened }) same first second)
  begun_at before (some e) v same first second = tt

  run_at :
      (s : Session) (v : World)
      → v.db ≡ db0
      → env.clock v.readings ≡ now
      → env.clock (suc v.readings) ≡ later
      → Ends (within s (publish_due env publish backoff_base) v)
  run_at idle v same first second =
      begun_at v (first_fault v.faults) (record v { faults = later_faults v.faults }) same first
        second
  run_at opened v same first second = publish_due-Relayed v same first second
  run_at aborted v same first second = publish_due-Relayed v same first second

-- A run of the relay that returns has published nothing, with no entry due at its first reading of the
-- clock, or has handed the entry that is the oldest one due then to the publisher, and then has marked it
-- published exactly where the publisher accepted it, and where not, put it off by its backoff, counted
-- from the second reading of the clock; it has written nothing else.
pub run_once-Relayed :
    (env : Env) (publish : Entry → Option Error) (backoff_base : ℤ) (w : World)
    → After
        (Relayed env.jsonb_text publish backoff_base
          (env.clock w.readings)
          (env.clock (suc w.readings))
          w.db)
        (run_once env publish backoff_base w)
unfolding run_once within_tx
run_once-Relayed env publish backoff_base w =
    run_at env publish backoff_base w.db (env.clock w.readings) (env.clock (suc w.readings))
      w.session w refl refl refl
