-- ===== src/Command/Drain/Empties.antt =====
-- cmd/croupier/lifecycle.go: with no failure a tick of the outbox worker publishes everything.
use mathlib.Core.Path.{subst}
use croupier.Prelude.{
  ℕ, zero, suc, ◌≡◌, refl, sym, ap, ◌∙◌, ◌<◌, ◌≤◌, Bool, true, false, Bool-cases, Option-cases, inl,
  inr, Option, none, some, List, [], ◌∷◌, arith, ◌==◌,
}
use croupier.Prelude.Int.{ℤ}
use croupier.Errors.{Error, Result, ok, err}
use croupier.Values.{Time}
use croupier.Outbox.{Entry, is_pending, mark_published}
use croupier.Store.Tables.{Db}
use croupier.Store.Monad.{World, idle, opened, query, read_clock, ◌>>=◌}
use croupier.Store.Quiet.{
  quiet, quiet_eta, Runs, Runs-bind, Runs-pure, Runs-exec, Runs-attempt, Runs-attempted,
  Runs-within_tx,
}
use croupier.Store.Outbox.{
  scan_entry, oldest_due, upsert_entry, store_entry, or_not_found, save_all, find_due_for_update,
}
use croupier.App.Env.{Env}
use croupier.App.Worker.{run_once}
use croupier.Command.{drain}
use croupier.Command.Drain.{
  upsert-scan_entry, entry_with_id, ids, Distinct, pending_count, due-found, ids-upsert,
  published-less,
}

-- Whatever waits is due at this time.
abbrev pub AllDue : Time → List Entry → Type 0
AllDue t [] = Unit
AllDue t (e ∷ es) = (is_pending e.status ≡ true → e.next_send_at ≤ t) × AllDue t es

-- The loop has come to its end, nothing waits any more, and no entry is lost.
abbrev pub Emptied : List Entry → Result Bool × World → Type 0
Emptied outbox (ok true, w) = (pending_count w.db.outbox ≡ 0) × (ids w.db.outbox ≡ ids outbox)
Emptied outbox (ok false, w) = ⊥
Emptied outbox (err e, w) = ⊥

nothing_due :
    (t now : Time) (es : List Entry)
    → t ≤ now
    → AllDue t es
    → oldest_due now es ≡ none
    → pending_count es ≡ 0
unfolding oldest_due
nothing_due t now [] h a e = refl
nothing_due t now (x ∷ es) h (due, a) e = ground (arith, nothing_due t now es)

AllDue-publish :
    (t : Time) (e : Entry) (es : List Entry)
    → AllDue t es
    → AllDue t (upsert_entry (mark_published e) es)
unfolding upsert_entry mark_published
AllDue-publish t e [] a = (λ h. absurd (cc), tt)
AllDue-publish t e (x ∷ es) (due, a) = elim (Bool-cases (x.id == e.id)) [
  | inl same ↦ rw same ((λ h. absurd (cc)), a)
  | inr other ↦ rw other (due, AllDue-publish t e es a)
]

module _ (env : Env) (publish : Entry → Option Error) (backoff_base : ℤ)
    (accepts : (e : Entry) → publish e ≡ none) where
  find_lem :
      (db : Db) (u r : ℕ)
      → find_due_for_update env.jsonb_text env.clock (quiet opened db u r) ≡ (
        or_not_found env.jsonb_text (oldest_due (env.clock r) db.outbox),
        quiet opened db u (suc r),
      )
  unfolding find_due_for_update ◌>>=◌ read_clock query
  find_lem db u r = refl

  publishes :
      (db : Db) (u r : ℕ) (e : Entry)
      → oldest_due (env.clock r) db.outbox ≡ some e
      → entry_with_id e.id db.outbox ≡ some e
      → Runs
          (run_once env publish backoff_base)
          (quiet idle db u r)
          true
          (quiet idle (record db { outbox = upsert_entry (mark_published e) db.outbox }) u (suc r))
  unfolding run_once save_all
  publishes db u r e found stored =
      subst
        (λ es.
          Runs (run_once env publish backoff_base) (quiet idle db u r) true
            (quiet idle (record db { outbox = es }) u (suc r)))
        (upsert-scan_entry env.jsonb_text e db.outbox stored)
        (Runs-within_tx tt (
          Runs-bind _
            (Runs-attempted _ (
              find_lem db u r
              ∙ ap (λ o. (or_not_found env.jsonb_text o, quiet opened db u (suc r))) found))
            (rw (accepts (scan_entry env.jsonb_text e)) (
              Runs-bind _
                (Runs-bind _
                  (Runs-exec (store_entry (mark_published (scan_entry env.jsonb_text e))) refl)
                  Runs-pure)
                Runs-pure))))

  rests :
      (db : Db) (u r : ℕ)
      → oldest_due (env.clock r) db.outbox ≡ none
      → Runs (run_once env publish backoff_base) (quiet idle db u r) false (quiet idle db u (suc r))
  unfolding run_once
  rests db u r found = Runs-within_tx tt (
      Runs-bind _
        (Runs-attempted _ (
          find_lem db u r
          ∙ ap (λ o. (or_not_found env.jsonb_text o, quiet opened db u (suc r))) found))
        Runs-pure)

  module _ (t : Time) (later : (n : ℕ) → t ≤ env.clock n) where
    empties :
        (fuel : ℕ) (db : Db) (u r : ℕ)
        → Distinct (ids db.outbox)
        → AllDue t db.outbox
        → pending_count db.outbox < fuel
        → (db' : Db) × (r' : ℕ) × Runs
            (drain env publish backoff_base fuel)
            (quiet idle db u r)
            true
            (quiet idle db' u r')
          × (pending_count db'.outbox ≡ 0)
          × (ids db'.outbox ≡ ids db.outbox)
    unfolding drain mark_published
    empties zero db u r distinct due enough = absurd (omega arith)
    empties (suc fuel) db u r distinct due enough =
        elim (Option-cases (oldest_due (env.clock r) db.outbox)) [
          | inl none_due ↦ (
            db,
            suc r,
            Runs-bind _ (Runs-attempt _ (rests db u r none_due)) Runs-pure,
            nothing_due t (env.clock r) db.outbox (later r) due none_due,
            refl,
          )
          | inr (e, found) ↦
              let (stored, p) = due-found (env.clock r) db.outbox e found distinct in
              let same = ids-upsert (mark_published e) db.outbox e stored in
              let (db', r', runs, emptied, kept) =
                empties fuel (record db { outbox = upsert_entry (mark_published e) db.outbox }) u
                  (suc r) (subst Distinct (sym same) distinct) (AllDue-publish t e db.outbox due)
                  (omega (arith, published-less e db.outbox stored p)) in
              (
                db',
                r',
                Runs-bind _ (Runs-attempt _ (publishes db u r e found stored)) runs,
                emptied,
                kept ∙ same,
              )
        ]

-- Where no database call fails, the publisher accepts every entry, no two entries of the outbox have the
-- same id and each that waits is due by a time that no reading of the clock precedes, a tick of the
-- outbox worker publishes every entry that waits, in at most one more round than there are, and loses
-- none.
pub drain-Empties :
    (env : Env) (publish : Entry → Option Error) (backoff_base : ℤ) (t : Time) (w : World)
    → ((e : Entry) → publish e ≡ none)
    → ((n : ℕ) → t ≤ env.clock n)
    → w.session ≡ idle
    → w.faults ≡ []
    → Distinct (ids w.db.outbox)
    → AllDue t w.db.outbox
    → Emptied w.db.outbox (drain env publish backoff_base (suc (pending_count w.db.outbox)) w)
drain-Empties env publish backoff_base t w accepts later i no_faults distinct due =
    let fuel = suc (pending_count w.db.outbox) in
    let (db', r', runs, emptied, kept) =
      empties env publish backoff_base accepts t later fuel w.db w.uuids w.readings distinct due
        (omega arith) in
    subst (Emptied w.db.outbox)
      (sym (ap (drain env publish backoff_base fuel) (quiet_eta w i no_faults) ∙ runs.runs))
      (emptied, kept)
