-- ===== src/Store/Rules.antt =====
-- Reasoning about calls on the database, one rule for each way to build a call.
use croupier.Prelude.{ℕ, suc, ◌≡◌, refl, Bool, true, false, Option, none, some, if◌then◌else◌}
use croupier.Errors.{Error, Result, ok, err, unavailable}
use croupier.Store.Tables.{Db}
use croupier.Store.Monad.{
  World, Fault, Session, safe_to_retry, unsafe_to_retry, acknowledgement_lost, behind_fault,
  wrap_transient, idle, opened, aborted, App, pure, raise, lift, continue, ◌>>=◌, attempt, query,
  exec, draw_uuid, read_clock, within_tx, within, deliver, statement, write, in_failed_transaction,
  first_fault, later_faults, begin, finish, commit,
}

-- what holds of the tables behind a successful call
abbrev pub After : {A : Type 0} → (A → Db → Type 0) → Result A × World → Type 0
After Q (ok a, w) = Q a w.db
After Q (err e, w) = Unit

-- If the call returns with no error from tables with `P`, it returns some `a` and tables with `Q a`.
pub record Ensures {A : Type 0} (P : Db → Type 0) (m : App A) (Q : A → Db → Type 0) : Type 0 where
  pub at : (w : World) → P w.db → After Q (m w)

module _ {A : Type 0} {P : Db → Type 0} {Q : A → Db → Type 0} where
  pub Ensures-lift :
      (r : Result A) → ((a : A) (db : Db) → r ≡ ok a → P db → Q a db) → Ensures P (lift r) Q
  Ensures-lift (ok a) h = record { at = λ w p. h a w.db refl p }
  Ensures-lift (err e) h = record { at = λ w p. tt }

  pub Ensures-pure : (a : A) → ((db : Db) → P db → Q a db) → Ensures P (pure a) Q
  Ensures-pure a h = record { at = λ w p. h w.db p }

  pub Ensures-raise : (e : Error) → Ensures P (raise e) Q
  Ensures-raise e = record { at = λ w p. tt }

  query_at :
      (f : Db → Result A)
      → ((a : A) (db : Db) → f db ≡ ok a → P db → Q a db)
      → (w : World) → P w.db
      → (r : Result A) → f w.db ≡ r
      → After Q (r, w)
  query_at f h w p (ok a) e = h a w.db e p
  query_at f h w p (err e) _ = tt

  deliver_query :
      (f : Db → Result A)
      → ((a : A) (db : Db) → f db ≡ ok a → P db → Q a db)
      → (o : Option Fault) (w : World) → P w.db
      → After Q (deliver o (λ w'. (f w'.db, w')) w)
  deliver_query f h none w p = query_at f h w p (f w.db) refl
  deliver_query f h (some e) w p = tt

  statement_query :
      (f : Db → Result A)
      → ((a : A) (db : Db) → f db ≡ ok a → P db → Q a db)
      → (s : Session) (w : World) → P w.db
      → After Q (statement s (λ w'. (f w'.db, w')) w)
  statement_query f h aborted w p = tt
  statement_query f h idle w p =
      deliver_query f h (first_fault w.faults) (record w { faults = later_faults w.faults }) p
  statement_query f h opened w p =
      deliver_query f h (first_fault w.faults) (record w { faults = later_faults w.faults }) p

  pub Ensures-query :
      (f : Db → Result A)
      → ((a : A) (db : Db) → f db ≡ ok a → P db → Q a db)
      → Ensures P (query f) Q
  unfolding query
  Ensures-query f h = record { at = λ w p. statement_query f h w.session w p }

module _ {P R : Db → Type 0} (f : Db → Result Db)
    (h : (db db' : Db) → f db ≡ ok db' → P db → R db') where
  exec_at : (w : World) → P w.db → (r : Result Db) → f w.db ≡ r → After (λ _. R) (write r w)
  exec_at w p (ok db) e = h w.db db e p
  exec_at w p (err e) _ = tt

  deliver_exec :
      (o : Option Fault) (w : World)
      → P w.db
      → After (λ _. R) (deliver o (λ w'. write (f w'.db) w') w)
  deliver_exec none w p = exec_at w p (f w.db) refl
  deliver_exec (some e) w p = tt

  statement_exec :
      (s : Session) (w : World) → P w.db → After (λ _. R) (statement s (λ w'. write (f w'.db) w') w)
  statement_exec aborted w p = tt
  statement_exec idle w p =
      deliver_exec (first_fault w.faults) (record w { faults = later_faults w.faults }) p
  statement_exec opened w p =
      deliver_exec (first_fault w.faults) (record w { faults = later_faults w.faults }) p

  pub Ensures-exec : Ensures P (exec f) (λ _. R)
  unfolding exec
  Ensures-exec = record { at = λ w p. statement_exec w.session w p }

module _ {P : Db → Type 0} (n : ℕ → ℕ) where
  pub Ensures-draw_uuid : Ensures P (draw_uuid n) (λ _. P)
  unfolding draw_uuid
  Ensures-draw_uuid = record { at = λ w p. p }

  pub Ensures-read_clock : Ensures P (read_clock n) (λ _. P)
  unfolding read_clock
  Ensures-read_clock = record { at = λ w p. p }

-- what a statement reports when the server or the network fails
pub data IsFault : Error → Type 0 where
  no_connection : IsFault (Error.app unavailable)
  broken : (n : ℕ) → IsFault (Error.backend n)

module _ {A : Type 0} {P : Db → Type 0} {Q : Result A → Db → Type 0} (f : Db → Result A)
    (returned : (r : Result A) (db : Db) → f db ≡ r → P db → Q r db)
    (failed : (e : Error) (db : Db) → IsFault e → P db → Q (err e) db) where
  wrap_at : (e : Fault) → IsFault (wrap_transient e)
  wrap_at (safe_to_retry n) = no_connection
  wrap_at (unsafe_to_retry n) = broken n
  wrap_at (acknowledgement_lost n) = broken n

  asked_behind : (e : Fault) (w : World) → P w.db → P (behind_fault e (λ v. (f v.db, v)) w).db
  asked_behind (safe_to_retry n) w p = p
  asked_behind (unsafe_to_retry n) w p = p
  asked_behind (acknowledgement_lost n) w p = p

  looked_up :
      (o : Option Fault) (w : World)
      → P w.db
      → let (r, w') = deliver o (λ v. (f v.db, v)) w in Q r w'.db
  looked_up none w p = returned (f w.db) w.db refl p
  looked_up (some e) w p =
      failed (wrap_transient e) (behind_fault e (λ v. (f v.db, v)) w).db (wrap_at e)
        (asked_behind e w p)

  asked :
      (s : Session) (w : World)
      → P w.db
      → let (r, w') = statement s (λ v. (f v.db, v)) w in Q r w'.db
  asked aborted w p = failed in_failed_transaction w.db (broken 0) p
  asked idle w p = looked_up (first_fault w.faults) (record w { faults = later_faults w.faults }) p
  asked opened w p =
      looked_up (first_fault w.faults) (record w { faults = later_faults w.faults }) p

  -- The result of a read as a value: what the tables give, or a fault.
  pub Ensures-attempt-query : Ensures P (attempt (query f)) Q
  unfolding attempt query
  Ensures-attempt-query = record { at = λ w p. asked w.session w p }

module _ {A B : Type 0} {R : B → Db → Type 0} where
  continue_at :
      (Q : A → Db → Type 0) (f : A → App B)
      → ((a : A) → Ensures (Q a) (f a) R)
      → (r : Result A) (w : World) → After Q (r, w)
      → After R (continue r f w)
  continue_at Q f h (ok a) w q = (h a).at w q
  continue_at Q f h (err e) w q = tt

  pub Ensures-bind :
      {P : Db → Type 0} {Q : A → Db → Type 0} {m : App A} {f : A → App B}
      → Ensures P m Q
      → ((a : A) → Ensures (Q a) (f a) R)
      → Ensures P (m >>= f) R
  unfolding ◌>>=◌
  Ensures-bind {Q} {m} {f} hm hf = record {
    at = λ w p. let (r, w') = m w in continue_at Q f hf r w' (hm.at w p);
  }

module _ {A B : Type 0} {P : Db → Type 0} {R : B → Db → Type 0} where
  -- The rest may use that the pure part did not fail.
  pub Ensures-bind-lift :
      (r : Result A) {f : A → App B}
      → ((a : A) → r ≡ ok a → Ensures P (f a) R)
      → Ensures P (lift r >>= f) R
  unfolding ◌>>=◌
  Ensures-bind-lift (ok a) h = record { at = λ w p. (h a refl).at w p }
  Ensures-bind-lift (err e) h = record { at = λ w p. tt }

module _ {A : Type 0} (Q : A → Db → Type 0) where
  weaken_at :
      (Q' : A → Db → Type 0)
      → ((a : A) (db : Db) → Q a db → Q' a db)
      → (r : Result A) (w : World) → After Q (r, w)
      → After Q' (r, w)
  weaken_at Q' h (ok a) w q = h a w.db q
  weaken_at Q' h (err e) w q = tt

  commit_at :
      (before : World) (s : Session) (o : Option Fault) (a : A) (w : World)
      → Q a w.db
      → After Q (commit before s o a w)
  commit_at before aborted o a w q = tt
  commit_at before idle none a w q = q
  commit_at before idle (some e) a w q = tt
  commit_at before opened none a w q = q
  commit_at before opened (some e) a w q = tt

  pub finish_at :
      (before : World) (r : Result A) (w : World) → After Q (r, w) → After Q (finish before r w)
  finish_at before (ok a) w q =
      commit_at before w.session (first_fault w.faults) a
        (record w { faults = later_faults w.faults }) q
  finish_at before (err e) w q = tt

module _ {A : Type 0} {P : Db → Type 0} {Q : A → Db → Type 0} where
  pub Ensures-weaken :
      {P' : Db → Type 0} {Q' : A → Db → Type 0} (m : App A)
      → Ensures P m Q
      → ((db : Db) → P' db → P db)
      → ((a : A) (db : Db) → Q a db → Q' a db)
      → Ensures P' m Q'
  Ensures-weaken {Q'} m e hp hq = record {
    at = λ w p. let (r, w') = m w in weaken_at Q Q' hq r w' (e.at w (hp w.db p));
  }

  begin_at :
      (before : World) (o : Option Fault) (m : App A) (w : World)
      → Ensures P m Q
      → P w.db
      → After Q (begin before o m w)
  begin_at before none m w h p =
      let (r, w') = m (record w { session = opened }) in
      finish_at Q before r w' (h.at (record w { session = opened }) p)
  begin_at before (some e) m w h p = tt

  within_at :
      (s : Session) (m : App A) (w : World) → Ensures P m Q → P w.db → After Q (within s m w)
  within_at idle m w h p =
      begin_at w (first_fault w.faults) m (record w { faults = later_faults w.faults }) h p
  within_at opened m w h p = h.at w p
  within_at aborted m w h p = h.at w p

  pub Ensures-within_tx : {m : App A} → Ensures P m Q → Ensures P (within_tx m) Q
  unfolding within_tx
  Ensures-within_tx {m} h = record { at = λ w p. within_at w.session m w h p }

module _ {A : Type 0} {P : Db → Type 0} {Q : A → Db → Type 0} where
  -- Each branch may use the outcome of the test.
  pub Ensures-if :
      (b : Bool) {m n : App A}
      → (b ≡ true → Ensures P m Q)
      → (b ≡ false → Ensures P n Q)
      → Ensures P (if b then m else n) Q
  Ensures-if true hm hn = hm refl
  Ensures-if false hm hn = hn refl

  -- It is enough to look at tables that hold the assertion.
  pub Ensures-given : {m : App A} → ((db : Db) → P db → Ensures P m Q) → Ensures P m Q
  Ensures-given h = record { at = λ w p. (h w.db p).at w p }

  pub Ensures-pure-bind :
      {B : Type 0} (b : B) (f : B → App A) → Ensures P (f b) Q → Ensures P (pure b >>= f) Q
  unfolding ◌>>=◌
  Ensures-pure-bind b f h = record { at = λ w p. h.at w p }

  pub Ensures-raise-bind : {B : Type 0} (e : Error) (f : B → App A) → Ensures P (raise e >>= f) Q
  unfolding ◌>>=◌
  Ensures-raise-bind e f = record { at = λ w p. tt }

-- A clock reading before what is attempted.
pub Ensures-attempt-clocked :
    {B : Type 0} {P : Db → Type 0} {R : Result B → Db → Type 0} (clock : ℕ → ℕ) (f : ℕ → App B)
    → ((now : ℕ) → Ensures P (attempt (f now)) R)
    → Ensures P (attempt (read_clock clock >>= f)) R
unfolding attempt read_clock ◌>>=◌
Ensures-attempt-clocked clock f h = record {
  at = λ w p. (h (clock w.readings)).at (record w { readings = suc w.readings }) p;
}

-- A UUID that is drawn is one of those to come.
pub Ensures-drawn :
    {P : Db → Type 0} {Q : ℕ → Db → Type 0} (n : ℕ → ℕ)
    → ((k : ℕ) (db : Db) → P db → Q (n k) db)
    → Ensures P (draw_uuid n) Q
unfolding draw_uuid
Ensures-drawn n h = record { at = λ w p. h w.uuids w.db p }
