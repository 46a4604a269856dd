-- ===== src/Store/Quiet.antt =====
-- Calls on the database that meet no failure, by what they return and leave: the rules by which a run
-- of a use case is followed to its end.
pub mod Inserts
use croupier.Prelude.{ℕ, suc, ◌≡◌, refl, ap, ◌∙◌, [], Bool, true, false, if◌then◌else◌}
use croupier.Errors.{Error, Result, ok, err}
use croupier.Store.Tables.{Db}
use croupier.Store.Monad.{
  World, Session, idle, opened, aborted, App, query, exec, pure, lift, attempt, draw_uuid,
  read_clock, within_tx, ◌>>=◌,
}

-- A world with these tables and no failure to come.
abbrev pub quiet : Session → Db → ℕ → ℕ → World
quiet s db uuids readings = record {
  db = db;
  session = s;
  faults = [];
  uuids = uuids;
  readings = readings;
}

pub quiet_eta :
    (w : World) → w.session ≡ idle → w.faults ≡ [] → w ≡ quiet idle w.db w.uuids w.readings
quiet_eta w i q = rw (i, q) refl

-- Statements are not refused.
abbrev pub IsLive : Session → Type 0
IsLive idle = Unit {0}
IsLive opened = Unit {0}
IsLive aborted = ⊥

-- the equations behind the rules
module _ {A : Type 0} where
  bind_lem :
      {B : Type 0} (m : App A) (f : A → App B) {w w' : World} {a : A} {r : Result B × World}
      → m w ≡ (ok a, w')
      → f a w' ≡ r
      → (m >>= f) w ≡ r
  unfolding ◌>>=◌
  bind_lem m f h k = rw h k

  attempt_lem : (m : App A) {w w' : World} {r : Result A} → m w ≡ (r, w') → attempt m w ≡ (ok r, w')
  unfolding attempt
  attempt_lem m h = rw h refl

  query_live :
      (f : Db → Result A) (s : Session) (db : Db) (u r : ℕ)
      → IsLive s
      → query f (quiet s db u r) ≡ (f db, quiet s db u r)
  unfolding query
  query_live f idle db u r h = refl
  query_live f opened db u r h = refl
  query_live f aborted db u r h = absurd h

  within_lem :
      (m : App A) (s : Session) {db db' : Db} {u r u' r' : ℕ} {a : A}
      → IsLive s
      → m (quiet opened db u r) ≡ (ok a, quiet opened db' u' r')
      → within_tx m (quiet s db u r) ≡ (ok a, quiet s db' u' r')
  unfolding within_tx
  within_lem m idle i h = rw h refl
  within_lem m opened i h = h
  within_lem m aborted i h = absurd i

exec_lem :
    (f : Db → Result Db) {db db' : Db} (u r : ℕ)
    → f db ≡ ok db'
    → exec f (quiet opened db u r) ≡ (ok tt, quiet opened db' u r)
unfolding exec
exec_lem f u r h = rw h refl

draw_lem :
    (f : ℕ → ℕ) (s : Session) (db : Db) (u r : ℕ)
    → draw_uuid f (quiet s db u r) ≡ (ok (f u), quiet s db (suc u) r)
unfolding draw_uuid
draw_lem f s db u r = refl

clock_lem :
    (f : ℕ → ℕ) (s : Session) (db : Db) (u r : ℕ)
    → read_clock f (quiet s db u r) ≡ (ok (f r), quiet s db u (suc r))
unfolding read_clock
clock_lem f s db u r = refl

-- The call returns `a` and leaves `w'`.
pub record Runs {A : Type 0} (m : App A) (w : World) (a : A) (w' : World) : Type 0 where
  pub runs : m w ≡ (ok a, w')

module _ {A : Type 0} where
  pub Runs-bind :
      {B : Type 0} {m : App A} (f : A → App B) {w w' w'' : World} {a : A} {b : B}
      → Runs m w a w'
      → Runs (f a) w' b w''
      → Runs (m >>= f) w b w''
  Runs-bind f h k = record { runs = bind_lem _ f h.runs k.runs }

  pub Runs-pure : {w : World} {a : A} → Runs (pure a) w a w
  Runs-pure = record { runs = refl }

  pub Runs-lift : {r : Result A} {w : World} {a : A} → r ≡ ok a → Runs (lift r) w a w
  Runs-lift h = record { runs = rw h refl }

  pub Runs-query :
      (f : Db → Result A) {s : Session} {db : Db} {u r : ℕ} {a : A}
      → IsLive s
      → f db ≡ ok a
      → Runs (query f) (quiet s db u r) a (quiet s db u r)
  Runs-query f {s} {db} {u} {r} i h = record {
    runs = query_live f s _ _ _ i ∙ ap (λ x. (x, quiet s db u r)) h;
  }

  pub Runs-attempt :
      (m : App A) {w w' : World} {a : A} → Runs m w a w' → Runs (attempt m) w (ok a) w'
  Runs-attempt m h = record { runs = attempt_lem m h.runs }

  -- An error is a value to the caller that looks at it.
  pub Runs-attempted :
      (m : App A) {w w' : World} {r : Result A} → m w ≡ (r, w') → Runs (attempt m) w r w'
  Runs-attempted m h = record { runs = attempt_lem m h }

  pub Runs-attempt-query :
      (f : Db → Result A) {s : Session} {db : Db} {u r : ℕ} {a : Result A}
      → IsLive s
      → f db ≡ a
      → Runs (attempt (query f)) (quiet s db u r) a (quiet s db u r)
  Runs-attempt-query f {s} {db} {u} {r} i h = record {
    runs = attempt_lem _ (query_live f s _ _ _ i ∙ ap (λ x. (x, quiet s db u r)) h);
  }

  pub Runs-eq : {m n : App A} {w w' : World} {a : A} → m ≡ n → Runs n w a w' → Runs m w a w'
  Runs-eq e h = rw e h

  pub Runs-then :
      {b : Bool} (m n : App A) {w w' : World} {a : A}
      → b ≡ true
      → Runs m w a w'
      → Runs (if b then m else n) w a w'
  Runs-then m n e h = rw e h

  pub Runs-else :
      {b : Bool} (m n : App A) {w w' : World} {a : A}
      → b ≡ false
      → Runs n w a w'
      → Runs (if b then m else n) w a w'
  Runs-else m n e h = rw e h

  -- `WithinTx` commits, or joins the transaction of the caller.
  pub Runs-within_tx :
      {m : App A} {s : Session} {db db' : Db} {u r u' r' : ℕ} {a : A}
      → IsLive s
      → Runs m (quiet opened db u r) a (quiet opened db' u' r')
      → Runs (within_tx m) (quiet s db u r) a (quiet s db' u' r')
  Runs-within_tx {s = s} i h = record { runs = within_lem _ s i h.runs }

pub Runs-exec :
    (f : Db → Result Db) {db db' : Db} {u r : ℕ}
    → f db ≡ ok db'
    → Runs (exec f) (quiet opened db u r) tt (quiet opened db' u r)
Runs-exec f h = record { runs = exec_lem f _ _ h }

pub Runs-draw_uuid :
    (f : ℕ → ℕ) {s : Session} {db : Db} {u r : ℕ}
    → Runs (draw_uuid f) (quiet s db u r) (f u) (quiet s db (suc u) r)
Runs-draw_uuid f = record { runs = draw_lem f _ _ _ _ }

pub Runs-read_clock :
    (f : ℕ → ℕ) {s : Session} {db : Db} {u r : ℕ}
    → Runs (read_clock f) (quiet s db u r) (f r) (quiet s db u (suc r))
Runs-read_clock f = record { runs = clock_lem f _ _ _ _ }
