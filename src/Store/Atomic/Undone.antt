-- ===== src/Store/Atomic/Undone.antt =====
-- Calls that succeed or leave the tables as they were, but for a lost acknowledgement.
use mathlib.Core.Path.{subst}
use croupier.Prelude.{
  ◌≡◌, refl, ap, Bool, true, false, Option, none, some, if◌then◌else◌, sym, ◌∙◌, ◌⊎◌, inl, inr, ℕ,
}
use croupier.Errors.{Error, Result, ok, err}
use croupier.Store.Tables.{Db}
use croupier.Store.Monad.{
  World, Fault, safe_to_retry, unsafe_to_retry, acknowledgement_lost, Session, idle, opened,
  aborted, App, within_tx, first_fault, later_faults, pure, lift, exec, write, deliver, statement,
  fail_session, continue, ◌>>=◌,
}
use croupier.Store.Rules.{After, Ensures, Ensures-lift}
use croupier.Store.Keeps.{Keeps, Keeps-lift}
use croupier.Store.Atomic.{begun, IsAtomic, within_tx-IsAtomic}

-- after a success the tables have `Q a`, and on an error they are those of `db`, or have `Q a` where
-- the acknowledgement of the write was lost
abbrev pub Final : {A : Type 0} → Db → (A → Db → Type 0) → Result A × World → Type 0
Final db Q (ok a, w) = Q a w.db × (w.session ≡ idle)
Final {A} db Q (err e, w) =
    ((w.db ≡ db) ⊎ ((n : ℕ) × (e ≡ Error.backend n) × (a : A) × Q a w.db)) × (w.session ≡ idle)

-- From the tables `d` and outside a transaction, the call succeeds with tables that have `Q a`, or
-- reports an error and leaves `d`, or reports one of a lost acknowledgement with such tables.
pub record OrUndone {A : Type 0} (d : Db) (m : App A) (Q : A → Db → Type 0) : Type 0 where
  pub at : (w : World) → w.session ≡ idle → w.db ≡ d → Final d Q (m w)

module _ {A : Type 0} (d : Db) (Q : A → Db → Type 0) where
  both_at :
      (r : Result A) (w : World)
      → ((w.db ≡ d) × (w.session ≡ idle))
      → After Q (r, w)
      → Final d Q (r, w)
  both_at (ok a) w (same, i) q = (q, i)
  both_at (err e) w (same, i) q = (inl same, i)

  made_at :
      (a : A) (v : World) (db : Db) (x : Result A × World)
      → x ≡ (ok a, v)
      → db ≡ v.db
      → After Q x
      → Q a db
  made_at a v db x e same q = subst (Q a) (sym same) (subst (After Q) e q)

  atomic_at :
      (m : App A) (w : World)
      → w.db ≡ d
      → After Q (m (begun w))
      → (r : Result A) (w' : World) → IsAtomic m w (r, w')
      → Final d Q (r, w')
  atomic_at m w same q (ok a) w' (v, returned, made, i) = (made_at a v w'.db _ returned made q, i)
  atomic_at m w same q (err e) w' (inl unchanged, i) = (inl (unchanged ∙ same), i)
  atomic_at m w same q (err e) w' (inr u, i) =
      (inr (u.number, u.error, u.value, made_at u.value u.behind w'.db _ u.returned u.made q), i)

module _ {A : Type 0} {d : Db} {Q : A → Db → Type 0} where
  -- a call that writes nothing
  pub OrUndone-reads :
      (m : App A) → Keeps (λ db. db ≡ d) m → Ensures (λ db. db ≡ d) m Q → OrUndone d m Q
  OrUndone-reads m k h = record {
    at = λ w i s. let (r, w') = m w in both_at d Q r w' (k.at w i s) (h.at w s);
  }

  pub OrUndone-within_tx : (m : App A) → Ensures (λ db. db ≡ d) m Q → OrUndone d (within_tx m) Q
  OrUndone-within_tx m h = record {
    at = λ w i s.
        atomic_at d Q m w s (h.at (begun w) s) (within_tx m w).0 (within_tx m w).1
          (within_tx-IsAtomic m w i);
  }

module _ {A B : Type 0} (d : Db) (Q' : A → Db → Type 0) (Q : B → Db → Type 0) where
  then_pure :
      (g : A → B)
      → ((a : A) (db : Db) → Q' a db → Q (g a) db)
      → (r : Result A) (w : World) → Final d Q' (r, w)
      → Final d Q (continue r (λ a. pure (g a)) w)
  then_pure g h (ok a) w (q, i) = (h a w.db q, i)
  then_pure g h (err e) w (inl same, i) = (inl same, i)
  then_pure g h (err e) w (inr (n, is, a, q), i) = (inr (n, is, g a, h a w.db q), i)

module _ {A B : Type 0} {d : Db} {Q : B → Db → Type 0} where
  read_then :
      (F : A → Type 0) (f : A → App B)
      → ((a : A) → F a → OrUndone d (f a) Q)
      → (r : Result A) (w : World) → Final d (λ a db. (db ≡ d) × F a) (r, w)
      → Final d Q (continue r f w)
  read_then F f h (ok a) w ((s, p), i) = (h a p).at w i s
  read_then F f h (err e) w (inl same, i) = (inl same, i)
  read_then F f h (err e) w (inr (n, is, a, sf), i) = (inl sf.0, i)

  -- what the reads have found may be used for the rest
  pub OrUndone-bind :
      {F : A → Type 0} {m : App A} {f : A → App B}
      → OrUndone d m (λ a db. (db ≡ d) × F a)
      → ((a : A) → F a → OrUndone d (f a) Q)
      → OrUndone d (m >>= f) Q
  unfolding ◌>>=◌
  OrUndone-bind {F} {m} {f} hm hf = record {
    at = λ w i s. let (r, w') = m w in read_then F f hf r w' (hm.at w i s);
  }

  pub OrUndone-map :
      {Q' : A → Db → Type 0} (m : App A) (g : A → B)
      → OrUndone d m Q'
      → ((a : A) (db : Db) → Q' a db → Q (g a) db)
      → OrUndone d (m >>= λ a. pure (g a)) Q
  unfolding ◌>>=◌
  OrUndone-map {Q'} m g k h = record {
    at = λ w i s. let (r, w') = m w in then_pure d Q' Q g h r w' (k.at w i s);
  }

module _ {A : Type 0} (d : Db) (Q Q' : A → Db → Type 0) where
  weaken_final :
      ((a : A) (db : Db) → Q a db → Q' a db)
      → (r : Result A) (w : World) → Final d Q (r, w)
      → Final d Q' (r, w)
  weaken_final h (ok a) w (q, i) = (h a w.db q, i)
  weaken_final h (err e) w (inl same, i) = (inl same, i)
  weaken_final h (err e) w (inr (n, is, a, q), i) = (inr (n, is, a, h a w.db q), i)

module _ {A : Type 0} {d : Db} {Q : A → Db → Type 0} where
  -- Each branch may use the outcome of the test.
  pub OrUndone-if :
      (b : Bool) {m n : App A}
      → (b ≡ true → OrUndone d m Q)
      → (b ≡ false → OrUndone d n Q)
      → OrUndone d (if b then m else n) Q
  OrUndone-if true hm hn = hm refl
  OrUndone-if false hm hn = hn refl

  pub OrUndone-weaken :
      {Q' : A → Db → Type 0} (m : App A)
      → OrUndone d m Q
      → ((a : A) (db : Db) → Q a db → Q' a db)
      → OrUndone d m Q'
  OrUndone-weaken {Q'} m k h = record {
    at = λ w i s. let (r, w') = m w in weaken_final d Q Q' h r w' (k.at w i s);
  }

module _ {A : Type 0} {d : Db} where
  reads_at :
      (r : Result A) (w : World)
      → ((w.db ≡ d) × (w.session ≡ idle))
      → Final d (λ a db. (db ≡ d) × Unit {0}) (r, w)
  reads_at (ok a) w (same, i) = ((same, tt), i)
  reads_at (err e) w (same, i) = (inl same, i)

  -- a call that keeps the tables, where nothing else is to be known of it
  pub OrUndone-Keeps :
      {m : App A} → Keeps (λ db. db ≡ d) m → OrUndone d m (λ a db. (db ≡ d) × Unit {0})
  OrUndone-Keeps {m} k = record { at = λ w i s. let (r, w') = m w in reads_at r w' (k.at w i s) }

  pub OrUndone-lift : (r : Result A) → OrUndone d (lift r) (λ a db. (db ≡ d) × (r ≡ ok a))
  OrUndone-lift r = OrUndone-reads _ (Keeps-lift r) (Ensures-lift r (λ a db e same. (same, e)))

module _ (f : Db → Result Db) (d : Db) (Q : Db → Type 0)
    (writes : (db db' : Db) → f db ≡ ok db' → db ≡ d → Q db') where
  written_at :
      (w : World) (r : Result Db)
      → f w.db ≡ r
      → w.session ≡ idle
      → w.db ≡ d
      → Final d (λ _. Q) (write r w)
  written_at w (ok db) e i s = (writes w.db db e s, i)
  written_at w (err x) e i s = (inl s, ap fail_session i)

  lost_at :
      (n : ℕ) (w : World) (r : Result Db)
      → f w.db ≡ r
      → w.db ≡ d
      → ((write r w).1.db ≡ d)
        ⊎ ((k : ℕ) × (Error.backend n ≡ Error.backend k) × Unit {0} × Q (write r w).1.db)
  lost_at n w (ok db) e s = inr (n, refl, tt, writes w.db db e s)
  lost_at n w (err x) e s = inl s

  delivered_at :
      (o : Option Fault) (w : World)
      → w.session ≡ idle
      → w.db ≡ d
      → Final d (λ _. Q) (deliver o (λ v. write (f v.db) v) w)
  delivered_at none w i s = written_at w (f w.db) refl i s
  delivered_at (some (safe_to_retry n)) w i s = (inl s, ap fail_session i)
  delivered_at (some (unsafe_to_retry n)) w i s = (inl s, ap fail_session i)
  delivered_at (some (acknowledgement_lost n)) w i s =
      (lost_at n w (f w.db) refl s, ap fail_session i)

  stated_at :
      (t : Session) (w : World)
      → t ≡ idle
      → w.session ≡ idle
      → w.db ≡ d
      → Final d (λ _. Q) (statement t (λ v. write (f v.db) v) w)
  stated_at idle w e i s =
      delivered_at (first_fault w.faults) (record w { faults = later_faults w.faults }) i s
  stated_at opened w e i s = absurd (cc)
  stated_at aborted w e i s = absurd (cc)

  -- one statement outside a transaction
  pub OrUndone-exec : OrUndone d (exec f) (λ _. Q)
  unfolding exec
  OrUndone-exec = record { at = λ w i s. stated_at w.session w i i s }
