-- ===== src/Store/Monad.antt =====
-- Calls on the database (internal/postgres/db.go). A call returns its result and the world that it
-- leaves, also beside an error. Inside a transaction an error of a statement aborts the transaction:
-- PostgreSQL then refuses every further statement and turns the commit into a rollback.
use croupier.Prelude.{ℕ, suc, Option, none, some, List, [], ◌∷◌}
use croupier.Errors.{Error, Result, ok, err, unavailable}
use croupier.Store.Tables.{Db}

-- the transaction of the caller's context
pub data Session : Type 0 where
  idle opened aborted : Session

-- A failure of the server or of the network. `pgconn.SafeToRetry` tells whether it came before any
-- data was sent. Behind that point the statement may have failed, or have had its effect while its
-- acknowledgement was lost. The number stands for the error itself.
pub data Fault : Type 0 where
  safe_to_retry unsafe_to_retry acknowledgement_lost : ℕ → Fault

-- `wrapTransientErr`
abbrev pub wrap_transient : Fault → Error
wrap_transient (safe_to_retry n) = Error.app unavailable
wrap_transient (unsafe_to_retry n) = Error.backend n
wrap_transient (acknowledgement_lost n) = Error.backend n

-- `faults` has, for each coming call, the failure that befalls it, if any.
pub record World : Type 0 where
  pub db : Db
  pub session : Session
  pub faults : List (Option Fault)
  pub uuids : ℕ
  pub readings : ℕ

abbrev pub App : Type 0 → Type 0
App A = World → Result A × World

module _ {A : Type 0} where
  abbrev pub pure : A → App A
  pure a w = (ok a, w)

  abbrev pub raise : Error → App A
  raise e w = (err e, w)

  abbrev pub lift : Result A → App A
  lift r w = (r, w)

abbrev pub continue : {A B : Type 0} → Result A → (A → App B) → App B
continue (ok a) f w = f a w
continue (err e) f w = (err e, w)

infixl 5 ◌>>=◌ ◌>>◌
unfoldable pub ◌>>=◌ : {A B : Type 0} → App A → (A → App B) → App B
◌>>=◌ m f w = let (r, w') = m w in continue r f w'

abbrev pub ◌>>◌ : {A B : Type 0} → App A → App B → App B
m >> k = m >>= λ _. k

-- The result as a value, error or not: the caller looks at `err` itself.
unfoldable pub attempt : {A : Type 0} → App A → App (Result A)
attempt m w = let (r, w') = m w in (ok r, w')

abbrev pub first_fault : List (Option Fault) → Option Fault
first_fault [] = none
first_fault (f ∷ fs) = f

abbrev pub later_faults : List (Option Fault) → List (Option Fault)
later_faults [] = []
later_faults (f ∷ fs) = fs

abbrev pub fail_session : Session → Session
fail_session idle = idle
fail_session opened = aborted
fail_session aborted = aborted

abbrev pub in_failed_transaction : Error
in_failed_transaction = Error.backend 0

-- the world behind a failing statement, which may have had its effect
abbrev pub behind_fault : {A : Type 0} → Fault → App A → World → World
behind_fault (acknowledgement_lost n) m w = (m w).1
behind_fault e m w = w

-- a statement, with the fault that befalls it
abbrev pub deliver : {A : Type 0} → Option Fault → App A → App A
deliver none m w = m w
deliver (some e) m w =
    (err (wrap_transient e), record (behind_fault e m w) { session = fail_session w.session })

-- One statement: refused in an aborted transaction, subject to a fault otherwise.
abbrev pub statement : {A : Type 0} → Session → App A → App A
statement aborted m w = (err in_failed_transaction, w)
statement idle m w = deliver (first_fault w.faults) m (record w { faults = later_faults w.faults })
statement opened m w =
    deliver (first_fault w.faults) m (record w { faults = later_faults w.faults })

-- A read. Its result may be an error of the scan or of no rows, which aborts nothing.
unfoldable pub query : {A : Type 0} → (Db → Result A) → App A
query f w = statement w.session (λ w'. (f w'.db, w')) w

abbrev pub write : Result Db → App (Unit {0})
write (ok db) w = (ok tt, record w { db = db })
write (err e) w = (err e, record w { session = fail_session w.session })

-- A write, which the constraints of the schema may refuse.
unfoldable pub exec : (Db → Result Db) → App (Unit {0})
exec f w = statement w.session (λ w'. write (f w'.db) w') w

-- `uuid.New`, the n-th call
unfoldable pub draw_uuid : (ℕ → ℕ) → App ℕ
draw_uuid new_uuid w = (ok (new_uuid w.uuids), record w { uuids = suc w.uuids })

-- `time.Now`, the n-th call
unfoldable pub read_clock : (ℕ → ℕ) → App ℕ
read_clock now w = (ok (now w.readings), record w { readings = suc w.readings })

abbrev pub rolled_back : World → World → World
rolled_back before w = record w { db = before.db; session = idle }

-- the tables behind a COMMIT that fails: those from before the transaction, or, where only the
-- acknowledgement was lost, those that it has made
abbrev pub left_by : Fault → Db → Db → Db
left_by (acknowledgement_lost n) before made = made
left_by e before made = before

-- `tx.Commit`
abbrev pub commit : {A : Type 0} → World → Session → Option Fault → A → App A
commit before aborted f a w = (err in_failed_transaction, rolled_back before w)
commit before idle none a w = (ok a, record w { session = idle })
commit before idle (some e) a w =
    (err (wrap_transient e), record w { db = left_by e before.db w.db; session = idle })
commit before opened none a w = (ok a, record w { session = idle })
commit before opened (some e) a w =
    (err (wrap_transient e), record w { db = left_by e before.db w.db; session = idle })

abbrev pub finish : {A : Type 0} → World → Result A → App A
finish before (ok a) w =
    commit before w.session (first_fault w.faults) a (record w { faults = later_faults w.faults })
finish before (err e) w = (err e, rolled_back before w)

-- `pool.Begin`, the body, then commit or rollback
abbrev pub begin : {A : Type 0} → World → Option Fault → App A → App A
begin before (some e) m w = (err (wrap_transient e), w)
begin before none m w = let (r, w') = m (record w { session = opened }) in finish before r w'

-- `TxManager.WithinTx`: joins the transaction of the context, if there is one.
abbrev pub within : {A : Type 0} → Session → App A → App A
within opened m w = m w
within aborted m w = m w
within idle m w = begin w (first_fault w.faults) m (record w { faults = later_faults w.faults })

unfoldable pub within_tx : {A : Type 0} → App A → App A
within_tx m w = within w.session m w
