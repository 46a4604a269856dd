-- ===== src/System.antt =====
-- The service as cmd/croupier composes it: the HTTP server, the consumer of the queue, the resolver of
-- pending references and the relay of the outbox work on the same tables. A step is one request, one stay
-- of the consumer in its loop, one round of the resolver or one run of the relay; in between the
-- database may begin or cease to fail.
use croupier.Prelude.{ℕ, arith, ◌≡◌, refl, true, ◌∙◌, sym, Option, List}
use croupier.Prelude.Int.{ℤ, pos, eqb_ℤ, int_laws}
use croupier.Errors.{Error, Result, ok, err}
use croupier.Values.{Uuid, Time}
use croupier.Outbox.{Entry}
use croupier.Store.Tables.{Db, empty}
use croupier.Store.Monad.{World, Fault, idle}
use croupier.Store.Rules.{After}
use croupier.Store.Books.{net, stored}
use croupier.App.Env.{Env}
use croupier.App.Movement.Conservation.{Reconciled}
use croupier.App.Reconcile.{ReconciliationResult, reconcile}
use croupier.App.Reconcile.Report.{IsReport, FitsColumns, reconcile-IsReport}
use croupier.App.Resolver.{Resolver, resolve_due}
use croupier.App.Resolver.Books.{resolve_due-Reconciled}
use croupier.App.Worker.{run_once}
use croupier.App.Worker.Books.{run_once-Keeps}
use croupier.Http.{Request, Web, create_wallet}
use croupier.Http.Server.{serve}
use croupier.Store.Books.Writes.{On}
use croupier.Http.Server.Reads.{reconcile-Keeps}
use croupier.Http.Server.Books.{Free, serve-Reconciled}
use croupier.Sqs.{Delivery, Settings}
use croupier.Sqs.Consumer.{run}
use croupier.Sqs.Consumer.Books.{run-Reconciled}

-- what the parts are built with
pub record Parts : Type 0 where
  pub env : Env
  pub web : Web
  pub consumer : Settings
  pub resolver : Resolver
  pub publish : Entry → Option Error
  pub outbox_backoff : ℤ

-- one step of a part; a request that creates a wallet comes where no wallet has an id
-- that is still to be drawn
pub data Step (p : Parts) : World → World → Type 0 where
  served :
      (r : Request) (w : World)
      → (r.route ≡ create_wallet → Free p.env p.web w)
      → Step p w (serve p.env p.web r w).1
  consumed :
      (receives : List (Result (List Delivery))) (w : World)
      → Step p w (run p.env p.consumer receives w).1
  resolved :
      (now : Time) (limit : ℕ) (w : World) → Step p w (resolve_due p.env p.resolver now limit w).1
  relayed : (w : World) → Step p w (run_once p.env p.publish p.outbox_backoff w).1
  failing : (faults : List (Option Fault)) (w : World) → Step p w (record w { faults = faults })

-- the worlds that the service can come to from empty tables
pub data Reach (p : Parts) : World → Type 0 where
  start : (w : World) → w.db ≡ empty → w.session ≡ idle → Reach p w
  next : {w w' : World} → Reach p w → Step p w w' → Reach p w'

eqb_own : (a : ℤ) → eqb_ℤ a a ≡ true
eqb_own a = ground arith

-- a report of no divergence
abbrev pub FoundConsistent : ReconciliationResult → Db → Type 0
FoundConsistent r db =
    (r.consistent ≡ true)
    × (r.difference.amount ≡ pos 0)
    × (r.calculated_balance.amount ≡ r.stored_balance.amount)

module _ (p : Parts) where
  step-Reconciled :
      {w w' : World}
      → Step p w w'
      → w.session ≡ idle
      → Reconciled w.db.wallets w.db.ledger
      → Reconciled w'.db.wallets w'.db.ledger × (w'.session ≡ idle)
  step-Reconciled (served r w fresh) i books = serve-Reconciled p.env p.web r w i books fresh
  step-Reconciled (consumed receives w) i books = run-Reconciled p.env p.consumer receives w i books
  step-Reconciled (resolved now limit w) i books =
      resolve_due-Reconciled p.env p.resolver now limit w i books
  step-Reconciled (relayed w) i books =
      let (q, j) = (run_once-Keeps Reconciled p.env p.publish p.outbox_backoff).at w i books in
      (q, j)
  step-Reconciled (failing faults w) i books = (books, i)

  start-Reconciled : (db : Db) → db ≡ empty → Reconciled db.wallets db.ledger
  unfolding net stored
  start-Reconciled db none_yet id = rw none_yet refl

  -- In every world that the service comes to from empty tables, by any sequence of requests, deliveries,
  -- rounds of the resolver and runs of the relay, with any failures of the database in between, the
  -- ledger of every wallet adds up to its stored balance, and no transaction is left open. A request that
  -- creates a wallet is taken to come where no wallet has an id that is still to be drawn.
  pub Reach-Reconciled :
      {w : World} → Reach p w → Reconciled w.db.wallets w.db.ledger × (w.session ≡ idle)
  Reach-Reconciled (start w none_yet i) = (start-Reconciled w.db none_yet, i)
  Reach-Reconciled (next {w} reached step) =
      let (books, i) = Reach-Reconciled reached in step-Reconciled step i books

  found_consistent :
      (id : Uuid) (r : ReconciliationResult) (db : Db)
      → Reconciled db.wallets db.ledger
      → IsReport id r db
      → FoundConsistent r db
  found_consistent id r db books report =
      let same = books id in
      (
        report.consistent_is ∙ rw same (eqb_own (stored id db.wallets)),
        report.difference_is ∙ rw same (omega int_laws),
        report.calculated_is ∙ same ∙ sym report.stored_is,
      )

  reported_at :
      (id : Uuid) (r : Result ReconciliationResult) (w : World)
      → Reconciled w.db.wallets w.db.ledger
      → After (IsReport id) (r, w)
      → After FoundConsistent (r, w)
  reported_at id (ok r) w books report = found_consistent id r w.db books report
  reported_at id (err e) w books _ = tt

  -- In every world that the service comes to from empty tables, a reconciliation of any wallet whose
  -- amounts are those of `bigint` columns, when it returns its report, reports no divergence.
  pub Reach-Consistent :
      (id : Uuid) {w : World}
      → Reach p w
      → FitsColumns id w.db
      → After FoundConsistent (reconcile p.env id w)
  Reach-Consistent id {w} reached fits =
      let (books, i) = Reach-Reconciled reached in
      let (books', j) = (reconcile-Keeps {P = On Reconciled} p.env id).at w i books in
      reported_at id (reconcile p.env id w).0 (reconcile p.env id w).1 books'
        (reconcile-IsReport p.env id w fits)
