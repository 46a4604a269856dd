-- ===== src/Store/Keeps.antt =====
-- What a call keeps, error or not, one rule for each way to build a call.
pub mod Answers
use croupier.Prelude.{
  ℕ, ◌≡◌, refl, ap, Bool, true, false, Option, none, some, ◌⊎◌, inl, inr, if◌then◌else◌,
}
use croupier.Errors.{Error, Result, ok, err}
use croupier.Store.Tables.{Db}
use croupier.Store.Monad.{
  World, Fault, safe_to_retry, unsafe_to_retry, acknowledgement_lost, behind_fault, left_by,
  Session, idle, opened, aborted, App, pure, raise, lift, continue, ◌>>=◌, attempt, query, exec,
  draw_uuid, read_clock, within_tx, within, deliver, statement, write, fail_session, first_fault,
  later_faults, begin, finish, commit,
}
use croupier.Store.Rules.{IsFault, no_connection, broken}
use croupier.Store.Inside.{
  Inside, Outcome, stopped, Inside-pure, Inside-raise, Inside-lift, Inside-query, Inside-exec,
  Inside-draw_uuid, Inside-read_clock, Inside-attempt, Inside-bind, Inside-bind-lift,
  Inside-pure-bind, Inside-raise-bind, Inside-within_tx, Inside-weaken,
}

-- The call keeps `P`, error or not. Outside a transaction it leaves no transaction open; inside one
-- the transaction stays open unless it is aborted.
pub record Keeps {A : Type 0} (P : Db → Type 0) (m : App A) : Type 0 where
  pub at : (w : World) → w.session ≡ idle → P w.db → P (m w).1.db × ((m w).1.session ≡ idle)
  pub inside : Inside P P m (λ _. P)

module _ {A : Type 0} {P : Db → Type 0} where
  pub Keeps-pure : (a : A) → Keeps P (pure a)
  Keeps-pure a = record { at = λ w i p. (p, i); inside = Inside-pure a (λ db p. p) }

  pub Keeps-raise : (e : Error) → Keeps P (raise {A = A} e)
  Keeps-raise e = record { at = λ w i p. (p, i); inside = Inside-raise e (λ db p. p) }

  pub Keeps-lift : (r : Result A) → Keeps P (lift r)
  Keeps-lift r = record { at = λ w i p. (p, i); inside = Inside-lift r (λ db p. p) (λ a db e p. p) }

module _ {A : Type 0} (P : Db → Type 0) where
  -- what `Keeps` says of one outcome
  abbrev pub Kept : Result A × World → Type 0
  Kept (r, w) = P w.db × (w.session ≡ idle)

  behind_keeps :
      (e : Fault) (m : App A) (w : World)
      → ((v : World) → v.session ≡ idle → P v.db → Kept (m v))
      → w.session ≡ idle
      → P w.db
      → P (behind_fault e m w).db
  behind_keeps (safe_to_retry n) m w h i p = p
  behind_keeps (unsafe_to_retry n) m w h i p = p
  behind_keeps (acknowledgement_lost n) m w h i p = (h w i p).0

  fault_at :
      (o : Option Fault) (m : App A) (w : World)
      → ((v : World) → v.session ≡ idle → P v.db → Kept (m v))
      → w.session ≡ idle
      → P w.db
      → Kept (deliver o m w)
  fault_at none m w h i p = h w i p
  fault_at (some e) m w h i p = (behind_keeps e m w h i p, ap fail_session i)

  statement_at :
      (s : Session) (m : App A) (w : World)
      → ((v : World) → v.session ≡ idle → P v.db → Kept (m v))
      → w.session ≡ idle
      → P w.db
      → s ≡ idle
      → Kept (statement s m w)
  statement_at idle m w h i p _ =
      fault_at (first_fault w.faults) m (record w { faults = later_faults w.faults }) h i p
  statement_at opened m w h i p e = absurd (cc)
  statement_at aborted m w h i p e = (p, i)

  attempt_at : (m : App A) → Keeps P m → (w : World) → w.session ≡ idle → P w.db → Kept (m w)
  attempt_at m k w i p = let (q, j) = k.at w i p in (q, j)

write_at :
    (P : Db → Type 0) (f : Db → Result Db)
    → ((db db' : Db) → f db ≡ ok db' → P db → P db')
    → (w : World) → w.session ≡ idle
    → P w.db
    → (r : Result Db) → f w.db ≡ r
    → Kept P (write r w)
write_at P f h w i p (ok db) e = (h w.db db e p, i)
write_at P f h w i p (err x) e = (p, ap fail_session i)

module _ {P : Db → Type 0} where
  pub Keeps-query : {A : Type 0} (f : Db → Result A) → Keeps P (query f)
  unfolding query
  Keeps-query f = record {
    at = λ w i p. statement_at P w.session (λ v. (f v.db, v)) w (λ v j q. (q, j)) i p i;
    inside = Inside-query f (λ db p. p) (λ a db e p. p);
  }

  pub Keeps-exec :
      (f : Db → Result Db) → ((db db' : Db) → f db ≡ ok db' → P db → P db') → Keeps P (exec f)
  unfolding exec
  Keeps-exec f h = record {
    at = λ w i p.
        statement_at P w.session (λ v. write (f v.db) v) w
          (λ v j q. write_at P f h v j q (f v.db) refl) i p i;
    inside = Inside-exec f h;
  }

  pub Keeps-draw_uuid : (n : ℕ → ℕ) → Keeps P (draw_uuid n)
  unfolding draw_uuid
  Keeps-draw_uuid n = record { at = λ w i p. (p, i); inside = Inside-draw_uuid n }

  pub Keeps-read_clock : (n : ℕ → ℕ) → Keeps P (read_clock n)
  unfolding read_clock
  Keeps-read_clock n = record { at = λ w i p. (p, i); inside = Inside-read_clock n }

  pub Keeps-attempt : {A : Type 0} {m : App A} → Keeps P m → Keeps P (attempt m)
  unfolding attempt
  Keeps-attempt {m} k = record {
    at = λ w i p. let (r, w') = m w in k.at w i p;
    inside = Inside-attempt k.inside;
  }

  continue-Keeps :
      {A B : Type 0} (f : A → App B)
      → ((a : A) → Keeps P (f a))
      → (r : Result A) (w : World) → w.session ≡ idle
      → P w.db
      → Kept P (continue r f w)
  continue-Keeps f h (ok a) w i p = let (q, j) = (h a).at w i p in (q, j)
  continue-Keeps f h (err e) w i p = (p, i)

  pub Keeps-bind :
      {A B : Type 0} {m : App A} {f : A → App B}
      → Keeps P m
      → ((a : A) → Keeps P (f a))
      → Keeps P (m >>= f)
  unfolding ◌>>=◌
  Keeps-bind {m} {f} km kf = record {
    at = λ w i p. let (r, w') = m w in let (q, j) = km.at w i p in continue-Keeps f kf r w' j q;
    inside = Inside-bind km.inside (λ a. (kf a).inside);
  }

  pub Keeps-bind-lift :
      {A B : Type 0} (r : Result A) {f : A → App B}
      → ((a : A) → r ≡ ok a → Keeps P (f a))
      → Keeps P (lift r >>= f)
  unfolding ◌>>=◌
  Keeps-bind-lift (ok a) h = record {
    at = λ w i p. let (q, j) = (h a refl).at w i p in (q, j);
    inside = Inside-bind-lift (ok a) (λ db p. p) (λ a e. (h a e).inside);
  }
  Keeps-bind-lift (err e) h = record {
    at = λ w i p. (p, i);
    inside = Inside-bind-lift (err e) (λ db p. p) (λ a e. (h a e).inside);
  }

  pub Keeps-pure-bind :
      {A B : Type 0} (a : A) (f : A → App B) → Keeps P (f a) → Keeps P (pure a >>= f)
  unfolding ◌>>=◌
  Keeps-pure-bind a f k = record {
    at = λ w i p. let (q, j) = k.at w i p in (q, j);
    inside = Inside-pure-bind a f k.inside;
  }

  pub Keeps-raise-bind : {A B : Type 0} (e : Error) (f : A → App B) → Keeps P (raise e >>= f)
  unfolding ◌>>=◌
  Keeps-raise-bind e f = record { at = λ w i p. (p, i); inside = Inside-raise-bind e f (λ db p. p) }

  pub Keeps-if :
      {A : Type 0} (b : Bool) {m n : App A} → Keeps P m → Keeps P n → Keeps P (if b then m else n)
  Keeps-if true km kn = km
  Keeps-if false km kn = kn

left_keeps :
    (P : Db → Type 0) (e : Fault) (before made : Db) → P before → P made → P (left_by e before made)
left_keeps P (safe_to_retry n) before made b q = b
left_keeps P (unsafe_to_retry n) before made b q = b
left_keeps P (acknowledgement_lost n) before made b q = q

-- A transaction that ends in an error leaves the tables as they were, or as its body ensures where only
-- the acknowledgement of the commit was lost; one that succeeds leaves them
-- as its body ensures.
module _ {A : Type 0} (P : Db → Type 0) where
  commit_keeps :
      (before : World) (s : Session) (o : Option Fault) (a : A) (w : World)
      → P before.db
      → (s ≡ aborted) ⊎ ((s ≡ opened) × P w.db)
      → Kept P (commit before s o a w)
  commit_keeps before aborted o a w b q = (b, refl)
  commit_keeps before idle o a w b (inl e) = absurd (cc)
  commit_keeps before idle o a w b (inr (e, _)) = absurd (cc)
  commit_keeps before opened none a w b (inl e) = absurd (cc)
  commit_keeps before opened none a w b (inr (_, q)) = (q, refl)
  commit_keeps before opened (some e) a w b (inl x) = absurd (cc)
  commit_keeps before opened (some e) a w b (inr (_, q)) = (left_keeps P e before.db w.db b q, refl)

  finish_keeps :
      (before : World) (r : Result A) (w : World)
      → P before.db
      → Outcome P (λ _. P) (r, w)
      → Kept P (finish before r w)
  finish_keeps before (ok a) w b q =
      commit_keeps before w.session (first_fault w.faults) a
        (record w { faults = later_faults w.faults }) b q
  finish_keeps before (err e) w b q = (b, refl)

  begin_keeps :
      (before : World) (o : Option Fault) (m : App A) (w : World)
      → Inside P P m (λ _. P)
      → P before.db
      → w.session ≡ idle
      → P w.db
      → Kept P (begin before o m w)
  begin_keeps before none m w h b i p =
      let (r, w') = m (record w { session = opened }) in
      finish_keeps before r w' b (h.at (record w { session = opened }) refl p)
  begin_keeps before (some e) m w h b i p = (p, i)

  within_keeps :
      (s : Session) (m : App A) (w : World)
      → Inside P P m (λ _. P)
      → s ≡ idle
      → w.session ≡ idle
      → P w.db
      → Kept P (within s m w)
  within_keeps idle m w h e i p =
      begin_keeps w (first_fault w.faults) m (record w { faults = later_faults w.faults }) h p i p
  within_keeps opened m w h e i p = absurd (cc)
  within_keeps aborted m w h e i p = absurd (cc)

module _ {A : Type 0} {P : Db → Type 0} where
  pub Keeps-within_tx : {m : App A} → Inside P P m (λ _. P) → Keeps P (within_tx m)
  unfolding within_tx
  Keeps-within_tx {m} h = record {
    at = λ w i p. within_keeps P w.session m w h i i p;
    inside = Inside-within_tx h;
  }

-- A call that keeps `P` does so inside a transaction, whatever else the errors allow.
module _ {A : Type 0} {R P : Db → Type 0} where
  pub Inside-keeps : {m : App A} → ((db : Db) → P db → R db) → Keeps P m → Inside R P m (λ _. P)
  Inside-keeps {m} h k = Inside-weaken m k.inside h (λ db p. p) (λ a db p. p)
