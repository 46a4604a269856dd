-- ===== src/Command/Drain.antt =====
-- cmd/croupier/lifecycle.go: the loop that empties the outbox comes to its end.
pub mod Empties
use mathlib.Core.Path.{subst}
use croupier.Prelude.{
  ℕ, zero, suc, ◌≡◌, refl, sym, ◌+◌, ◌<◌, ◌==◌, ==_eq, Bool, true, false, Bool-cases, inl, inr,
  Option, none, some, List, [], ◌∷◌, map, arith, if◌then◌else◌, ltb, ◌⊎◌,
}
use croupier.Prelude.Int.{ℤ}
use croupier.Errors.{Error, Result, ok, err}
use croupier.Values.{Uuid, Time}
use croupier.Outbox.{Entry, is_pending, mark_published}
use croupier.Store.Tables.{Db}
use croupier.Store.Monad.{World, idle, attempt, ◌>>=◌}
use croupier.Store.Rules.{After}
use croupier.App.Worker.Books.{run_once-Keeps}
use croupier.Store.Outbox.{scan_entry, oldest_due, is_due, earlier, upsert_entry}
use croupier.App.Env.{Env}
use croupier.App.Worker.{run_once}
use croupier.App.Worker.Relay.{Relayed, sent, put_off, run_once-Relayed}
use croupier.Command.{drain, drain_on}

abbrev pub ids : List Entry → List Uuid
ids es = map (λ (e : Entry). e.id) es

abbrev Fresh : Uuid → List Uuid → Type 0
Fresh i [] = Unit
Fresh i (j ∷ js) = ((j == i) ≡ false) × Fresh i js

-- no id twice, as the primary key asks
abbrev pub Distinct : List Uuid → Type 0
Distinct [] = Unit
Distinct (i ∷ is) = Fresh i is × Distinct is

abbrev one_if : Bool → ℕ
one_if true = 1
one_if false = 0

abbrev pub pending_count : List Entry → ℕ
pending_count [] = 0
pending_count (e ∷ es) = one_if (is_pending e.status) + pending_count es

abbrev pub entry_with_id : Uuid → List Entry → Option Entry
entry_with_id i [] = none
entry_with_id i (e ∷ es) = if e.id == i then some e else entry_with_id i es

unlisted_absent : (i : Uuid) (es : List Entry) → Fresh i (ids es) → entry_with_id i es ≡ none
unlisted_absent i [] h = refl
unlisted_absent i (e ∷ es) (other, h) = ground (arith, unlisted_absent i es h)

older :
    (b : Bool) (x e f : Entry) → some (if b then f else x) ≡ some e → (x ≡ e) ⊎ (some f ≡ some e)
older true x e f h = inr h
older false x e f h = inl (cc)

older_of : (x e : Entry) (r : Option Entry) → some (earlier x r) ≡ some e → (x ≡ e) ⊎ (r ≡ some e)
older_of x e none h = inl (cc)
older_of x e (some f) h = older (ltb f.created_at x.created_at) x e f h

pending_of_due : (now : Time) (x : Entry) → is_due now x ≡ true → is_pending x.status ≡ true
pending_of_due now x h = elim (Bool-cases (is_pending x.status)) [
  | inl p ↦ p
  | inr q ↦ ground arith
]

-- the first entry is the one picked, or the pick is that of the rest
picked :
    (now : Time) (x e : Entry) (r : Option Entry)
    → (if is_due now x then some (earlier x r) else r) ≡ some e
    → ((x ≡ e) × (is_pending x.status ≡ true)) ⊎ (r ≡ some e)
picked now x e r h = elim (Bool-cases (is_due now x)) [
  | inl due ↦
      elim (older_of x e r (subst (λ b. (if b then some (earlier x r) else r) ≡ some e) due h)) [
        | inl same ↦ inl (same, pending_of_due now x due)
        | inr later ↦ inr later
      ]
  | inr not_due ↦ inr (ground arith)
]

found_later :
    (x e : Entry) (es : List Entry)
    → Fresh x.id (ids es)
    → entry_with_id e.id es ≡ some e
    → entry_with_id e.id (x ∷ es) ≡ some e
found_later x e es fresh h = elim (Bool-cases (x.id == e.id)) [
  | inl same ↦
      let absent = unlisted_absent x.id es fresh in absurd (cc (absent, h, ==_eq x.id e.id same))
  | inr other ↦ ground arith
]

-- the oldest due entry is pending, and the one with its id
pub due-found :
    (now : Time) (es : List Entry) (e : Entry)
    → oldest_due now es ≡ some e
    → Distinct (ids es)
    → (entry_with_id e.id es ≡ some e) × (is_pending e.status ≡ true)
unfolding oldest_due
due-found now [] e h d = absurd (cc)
due-found now (x ∷ es) e h (fresh, d) = elim (picked now x e (oldest_due now es) h) [
  | inl (same, p) ↦
      subst (λ y. (entry_with_id y.id (x ∷ es) ≡ some y) × (is_pending y.status ≡ true)) same
        (ground arith, p)
  | inr later ↦ let (found, p) = due-found now es e later d in (found_later x e es fresh found, p)
]

pub ids-upsert :
    (new : Entry) (es : List Entry) (old : Entry)
    → entry_with_id new.id es ≡ some old
    → ids (upsert_entry new es) ≡ ids es
unfolding upsert_entry
ids-upsert new [] old h = absurd (cc)
ids-upsert new (x ∷ es) old h = ground (arith, ids-upsert new es old)

pub published-less :
    (e : Entry) (es : List Entry)
    → entry_with_id e.id es ≡ some e
    → is_pending e.status ≡ true
    → suc (pending_count (upsert_entry (mark_published e) es)) ≡ pending_count es
unfolding upsert_entry mark_published
published-less e [] h p = absurd (cc)
published-less e (x ∷ es) h p = ground (arith, published-less e es)

-- What a row is read as is stored like the row.
pub upsert-scan_entry :
    (jsonb_text : List ℕ → List ℕ) (e : Entry) (es : List Entry)
    → entry_with_id e.id es ≡ some e
    → upsert_entry (mark_published (scan_entry jsonb_text e)) es
      ≡ upsert_entry (mark_published e) es
unfolding upsert_entry mark_published
upsert-scan_entry jsonb_text e [] h = absurd (cc)
upsert-scan_entry jsonb_text e (x ∷ es) h = ground (arith, upsert-scan_entry jsonb_text e es)

module _ (env : Env) (publish : Entry → Option Error) (backoff_base : ℤ)
    (accepts : (e : Entry) → publish e ≡ none) where
  -- what a run that has processed an entry leaves
  one_less :
      (now later : Time) (db db' : Db)
      → Relayed env.jsonb_text publish backoff_base now later db true db'
      → Distinct (ids db.outbox)
      → (suc (pending_count db'.outbox) ≡ pending_count db.outbox) × Distinct (ids db'.outbox)
  unfolding mark_published
  one_less now later db db' (sent e due _) distinct =
      let (found, p) = due-found now db.outbox e due distinct in
      subst (λ es. (suc (pending_count es) ≡ pending_count db.outbox) × Distinct (ids es))
        (sym (upsert-scan_entry env.jsonb_text e db.outbox found))
        (
          published-less e db.outbox found p,
          subst Distinct (sym (ids-upsert (mark_published e) db.outbox e found)) distinct,
        )
  one_less now later db db' (put_off e e' x due refused _) distinct =
      let yes = accepts (scan_entry env.jsonb_text e) in absurd (cc)

  run_once_idle :
      (w : World) → w.session ≡ idle → (run_once env publish backoff_base w).1.session ≡ idle
  run_once_idle w i = ((run_once-Keeps (λ _ _. Unit {0}) env publish backoff_base).at w i tt).1

  drained_at :
      (fuel : ℕ) (now later : Time) (db : Db) (r : Result Bool) (w : World)
      → Distinct (ids db.outbox)
      → pending_count db.outbox < suc fuel
      → After (Relayed env.jsonb_text publish backoff_base now later db) (r, w)
      → w.session ≡ idle
      → ((v : World)
          → v.session ≡ idle
          → Distinct (ids v.db.outbox)
          → pending_count v.db.outbox < fuel
          → (drain env publish backoff_base fuel v).0 ≡ ok true)
      → (drain_on env publish backoff_base (drain env publish backoff_base fuel) r w).0 ≡ ok true
  unfolding drain_on
  drained_at fuel now later db (err e) w distinct enough relayed i rest = refl
  drained_at fuel now later db (ok false) w distinct enough relayed i rest = refl
  drained_at fuel now later db (ok true) w distinct enough relayed i rest =
      let (less, distinct') = one_less now later db w.db relayed distinct in
      rest w i distinct' (omega (arith, less))

  drain_ends :
      (fuel : ℕ) (w : World)
      → w.session ≡ idle
      → Distinct (ids w.db.outbox)
      → pending_count w.db.outbox < fuel
      → (drain env publish backoff_base fuel w).0 ≡ ok true
  unfolding drain attempt ◌>>=◌
  drain_ends zero w i distinct enough = absurd (omega arith)
  drain_ends (suc fuel) w i distinct enough =
      let (r, v) = run_once env publish backoff_base w in
      drained_at fuel (env.clock w.readings) (env.clock (suc w.readings)) w.db r v distinct enough
        (run_once-Relayed env publish backoff_base w) (run_once_idle w i) (drain_ends fuel)

-- Where the publisher accepts every entry and no two entries of the outbox have the same id, the loop of
-- a tick ends, whatever database calls fail: one more round than there are pending entries is enough.
pub drain-Terminates :
    (env : Env) (publish : Entry → Option Error) (backoff_base : ℤ)
    → ((e : Entry) → publish e ≡ none)
    → (w : World) → w.session ≡ idle
    → Distinct (ids w.db.outbox)
    → (drain env publish backoff_base (suc (pending_count w.db.outbox)) w).0 ≡ ok true
drain-Terminates env publish backoff_base accepts w i distinct =
    drain_ends env publish backoff_base accepts (suc (pending_count w.db.outbox)) w i distinct
      (omega arith)
