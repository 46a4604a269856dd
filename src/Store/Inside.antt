-- ===== src/Store/Inside.antt =====
-- What a call does inside the transaction of its caller, error or not, one rule for each way to build
-- a call. An error of a statement aborts the transaction, and nothing that comes later revives it.
use croupier.Prelude.{
  ℕ, ◌≡◌, refl, ap, ◌∙◌, Bool, true, false, Option, none, some, ◌⊎◌, inl, inr, if◌then◌else◌,
}
use croupier.Errors.{Error, Result, ok, err}
use croupier.Store.Tables.{Db}
use croupier.Store.Monad.{
  World, Fault, Session, idle, opened, aborted, App, pure, raise, lift, continue, ◌>>=◌, attempt,
  query, exec, draw_uuid, read_clock, within_tx, within, deliver, statement, write, fail_session,
  first_fault, later_faults,
}

-- The transaction is aborted, or still open over tables with `Q a`, or `R` beside an error.
abbrev pub Outcome : {A : Type 0} → (Db → Type 0) → (A → Db → Type 0) → Result A × World → Type 0
Outcome R Q (ok a, w) = (w.session ≡ aborted) ⊎ ((w.session ≡ opened) × Q a w.db)
Outcome R Q (err e, w) = (w.session ≡ aborted) ⊎ ((w.session ≡ opened) × R w.db)

pub record Inside {A : Type 0} (R P : Db → Type 0) (m : App A) (Q : A → Db → Type 0) : Type 0 where
  pub at : (w : World) → w.session ≡ opened → P w.db → Outcome R Q (m w)
  pub stays : (w : World) → w.session ≡ aborted → (m w).1.session ≡ aborted

module _ {A : Type 0} (R P : Db → Type 0) (Q : A → Db → Type 0) where
  lift_at :
      (r : Result A)
      → ((db : Db) → P db → R db)
      → ((a : A) (db : Db) → r ≡ ok a → P db → Q a db)
      → (w : World) → w.session ≡ opened
      → P w.db
      → Outcome R Q (r, w)
  lift_at (ok a) hr h w o p = inr (o, h a w.db refl p)
  lift_at (err e) hr h w o p = inr (o, hr w.db p)

  deliver_at :
      (f : Option Fault) (m : App A) (w : World)
      → ((v : World) → v.session ≡ opened → P v.db → Outcome R Q (m v))
      → w.session ≡ opened
      → P w.db
      → Outcome R Q (deliver f m w)
  deliver_at none m w h o p = h w o p
  deliver_at (some e) m w h o p = inl (ap fail_session o)

  statement_at :
      (s : Session) (m : App A) (w : World)
      → ((v : World) → v.session ≡ opened → P v.db → Outcome R Q (m v))
      → w.session ≡ opened
      → P w.db
      → s ≡ opened
      → Outcome R Q (statement s m w)
  statement_at opened m w h o p _ =
      deliver_at (first_fault w.faults) m (record w { faults = later_faults w.faults }) h o p
  statement_at idle m w h o p e = absurd (cc)
  statement_at aborted m w h o p e = absurd (cc)

module _ {A : Type 0} {R P : Db → Type 0} {Q : A → Db → Type 0} where
  pub Inside-pure : (a : A) → ((db : Db) → P db → Q a db) → Inside R P (pure a) Q
  Inside-pure a h = record { at = λ w o p. inr (o, h w.db p); stays = λ w s. s }

  pub Inside-raise : (e : Error) → ((db : Db) → P db → R db) → Inside R P (raise e) Q
  Inside-raise e h = record { at = λ w o p. inr (o, h w.db p); stays = λ w s. s }

  pub Inside-lift :
      (r : Result A)
      → ((db : Db) → P db → R db)
      → ((a : A) (db : Db) → r ≡ ok a → P db → Q a db)
      → Inside R P (lift r) Q
  Inside-lift r hr h = record { at = λ w o p. lift_at R P Q r hr h w o p; stays = λ w s. s }

statement_stays :
    {A : Type 0} (s : Session) (m : App A) (w : World)
    → w.session ≡ aborted
    → s ≡ aborted
    → (statement s m w).1.session ≡ aborted
statement_stays aborted m w a _ = a
statement_stays idle m w a e = absurd (cc)
statement_stays opened m w a e = absurd (cc)

module _ {A : Type 0} {R P : Db → Type 0} {Q : A → Db → Type 0} (f : Db → Result A)
    (failed : (db : Db) → P db → R db)
    (returned : (a : A) (db : Db) → f db ≡ ok a → P db → Q a db) where
  pub Inside-query : Inside R P (query f) Q
  unfolding query
  Inside-query = record {
    at = λ w o p.
        statement_at R P Q w.session (λ v. (f v.db, v)) w
          (λ v o' p'.
            lift_at R (λ db. P db × (db ≡ v.db)) Q (f v.db) (λ db (p, _). failed db p)
              (λ a db e (p, same). returned a db (ap f same ∙ e) p) v o' (p', refl))
          o p o;
    stays = λ w s. statement_stays w.session _ w s s;
  }

module _ (R : Db → Type 0) {P S : Db → Type 0} (f : Db → Result Db)
    (written : (db db' : Db) → f db ≡ ok db' → P db → S db') where
  written_at :
      (w : World)
      → w.session ≡ opened
      → P w.db
      → (r : Result Db) → f w.db ≡ r
      → Outcome R (λ _. S) (write r w)
  written_at w o p (ok db) e = inr (o, written w.db db e p)
  written_at w o p (err x) e = inl (ap fail_session o)

module _ {R P S : Db → Type 0} (f : Db → Result Db)
    (written : (db db' : Db) → f db ≡ ok db' → P db → S db') where
  pub Inside-exec : Inside R P (exec f) (λ _. S)
  unfolding exec
  Inside-exec = record {
    at = λ w o p.
        statement_at R P (λ _. S) w.session _ w
          (λ v o' p'. written_at R f written v o' p' (f v.db) refl) o p o;
    stays = λ w s. statement_stays w.session _ w s s;
  }

module _ {R P : Db → Type 0} (n : ℕ → ℕ) where
  pub Inside-draw_uuid : Inside R P (draw_uuid n) (λ _. P)
  unfolding draw_uuid
  Inside-draw_uuid = record { at = λ w o p. inr (o, p); stays = λ w s. s }

  pub Inside-read_clock : Inside R P (read_clock n) (λ _. P)
  unfolding read_clock
  Inside-read_clock = record { at = λ w o p. inr (o, p); stays = λ w s. s }

module _ {A : Type 0} (R P : Db → Type 0) where
  attempt_at :
      (r : Result A) (w : World)
      → Outcome R (λ _. R) (r, w)
      → Outcome P (λ (_ : Result A). R) (ok r, w)
  attempt_at (ok a) w o = o
  attempt_at (err e) w o = o

module _ {A : Type 0} {R : Db → Type 0} where
  pub Inside-attempt :
      {P S : Db → Type 0} {m : App A} → Inside R P m (λ _. R) → Inside S P (attempt m) (λ _. R)
  unfolding attempt
  Inside-attempt {S} {m} k = record {
    at = λ w o p. let (r, w') = m w in attempt_at R S r w' (k.at w o p);
    stays = λ w s. let (r, w') = m w in k.stays w s;
  }

pub stopped :
    {A : Type 0} (R : Db → Type 0) (Q : A → Db → Type 0) (x : Result A × World)
    → x.1.session ≡ aborted
    → Outcome R Q x
stopped R Q (ok b, w) s = inl s
stopped R Q (err e, w) s = inl s

continue_stays :
    {A B : Type 0} (f : A → App B)
    → ((a : A) (w : World) → w.session ≡ aborted → (f a w).1.session ≡ aborted)
    → (r : Result A) (w : World) → w.session ≡ aborted
    → (continue r f w).1.session ≡ aborted
continue_stays f h (ok a) w s = h a w s
continue_stays f h (err e) w s = s

module _ {A B : Type 0} {R : Db → Type 0} where
  continue_at :
      (Q : A → Db → Type 0) (S : B → Db → Type 0) (f : A → App B)
      → ((a : A) → Inside R (Q a) (f a) S)
      → (r : Result A) (w : World) → Outcome R Q (r, w)
      → Outcome R S (continue r f w)
  continue_at Q S f h (ok a) w (inl s) = stopped R S (f a w) ((h a).stays w s)
  continue_at Q S f h (ok a) w (inr (o, q)) = (h a).at w o q
  continue_at Q S f h (err e) w o = o

  pub Inside-bind :
      {P : Db → Type 0} {Q : A → Db → Type 0} {S : B → Db → Type 0} {m : App A} {f : A → App B}
      → Inside R P m Q
      → ((a : A) → Inside R (Q a) (f a) S)
      → Inside R P (m >>= f) S
  unfolding ◌>>=◌
  Inside-bind {Q} {S} {m} {f} hm hf = record {
    at = λ w o p. let (r, w') = m w in continue_at Q S f hf r w' (hm.at w o p);
    stays = λ w s.
        let (r, w') = m w in continue_stays f (λ a v t. (hf a).stays v t) r w' (hm.stays w s);
  }

  pub Inside-bind-lift :
      {P : Db → Type 0} {S : B → Db → Type 0} (r : Result A) {f : A → App B}
      → ((db : Db) → P db → R db)
      → ((a : A) → r ≡ ok a → Inside R P (f a) S)
      → Inside R P (lift r >>= f) S
  unfolding ◌>>=◌
  Inside-bind-lift (ok a) hr h = record {
    at = λ w o p. (h a refl).at w o p;
    stays = λ w s. (h a refl).stays w s;
  }
  Inside-bind-lift (err e) hr h = record { at = λ w o p. inr (o, hr w.db p); stays = λ w s. s }

  pub Inside-pure-bind :
      {P : Db → Type 0} {S : B → Db → Type 0} (a : A) (f : A → App B)
      → Inside R P (f a) S
      → Inside R P (pure a >>= f) S
  unfolding ◌>>=◌
  Inside-pure-bind a f h = record { at = λ w o p. h.at w o p; stays = λ w s. h.stays w s }

  pub Inside-raise-bind :
      {P : Db → Type 0} {S : B → Db → Type 0} (e : Error) (f : A → App B)
      → ((db : Db) → P db → R db)
      → Inside R P (raise e >>= f) S
  unfolding ◌>>=◌
  Inside-raise-bind e f h = record { at = λ w o p. inr (o, h w.db p); stays = λ w s. s }

module _ {A : Type 0} (R R' : Db → Type 0) (Q Q' : A → Db → Type 0) where
  weaken_at :
      ((db : Db) → R db → R' db)
      → ((a : A) (db : Db) → Q a db → Q' a db)
      → (r : Result A) (w : World) → Outcome R Q (r, w)
      → Outcome R' Q' (r, w)
  weaken_at hr hq (ok a) w (inl s) = inl s
  weaken_at hr hq (err e) w (inl s) = inl s
  weaken_at hr hq (ok a) w (inr (o, q)) = inr (o, hq a w.db q)
  weaken_at hr hq (err e) w (inr (o, q)) = inr (o, hr w.db q)

module _ {A : Type 0} {R P : Db → Type 0} {Q : A → Db → Type 0} where
  pub Inside-if :
      (b : Bool) {m n : App A} → Inside R P m Q → Inside R P n Q → Inside R P (if b then m else n) Q
  Inside-if true hm hn = hm
  Inside-if false hm hn = hn

  pub Inside-weaken :
      {R' P' : Db → Type 0} {Q' : A → Db → Type 0} (m : App A)
      → Inside R P m Q
      → ((db : Db) → R db → R' db)
      → ((db : Db) → P' db → P db)
      → ((a : A) (db : Db) → Q a db → Q' a db)
      → Inside R' P' m Q'
  Inside-weaken {R'} {Q'} m h hr hp hq = record {
    at = λ w o p. let (r, w') = m w in weaken_at R R' Q Q' hr hq r w' (h.at w o (hp w.db p));
    stays = λ w s. h.stays w s;
  }

  within_at :
      (s : Session) (m : App A) (w : World)
      → Inside R P m Q
      → w.session ≡ opened
      → P w.db
      → s ≡ opened
      → Outcome R Q (within s m w)
  within_at opened m w h o p _ = h.at w o p
  within_at idle m w h o p e = absurd (cc)
  within_at aborted m w h o p e = absurd (cc)

  within_stays :
      (s : Session) (m : App A) (w : World)
      → Inside R P m Q
      → w.session ≡ aborted
      → s ≡ aborted
      → (within s m w).1.session ≡ aborted
  within_stays aborted m w h a _ = h.stays w a
  within_stays idle m w h a e = absurd (cc)
  within_stays opened m w h a e = absurd (cc)

  -- A transaction inside a transaction is part of it.
  pub Inside-within_tx : {m : App A} → Inside R P m Q → Inside R P (within_tx m) Q
  unfolding within_tx
  Inside-within_tx {m} h = record {
    at = λ w o p. within_at w.session m w h o p o;
    stays = λ w s. within_stays w.session m w h s s;
  }
