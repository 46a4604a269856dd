-- ===== src/Store/Atomic.antt =====
-- internal/postgres/db.go: a transaction is all or nothing.
pub mod Undone
use mathlib.Core.Path.{subst}
use croupier.Prelude.{
  ◌≡◌, refl, ap, Bool, true, false, Option, none, some, if◌then◌else◌, sym, ◌∙◌, ◌⊎◌, inl, inr, ℕ,
}
use croupier.Errors.{Error, Result, ok, err}
use croupier.Store.Tables.{Db}
use croupier.Store.Monad.{
  World, Fault, safe_to_retry, unsafe_to_retry, acknowledgement_lost, Session, idle, opened,
  aborted, App, within_tx, within, begin, finish, commit, first_fault, later_faults, pure, lift,
  exec, write, deliver, statement, fail_session, continue, ◌>>=◌,
}
use croupier.Store.Rules.{After, Ensures, Ensures-lift}
use croupier.Store.Keeps.{Keeps, Keeps-lift}

-- where the body of a transaction begins
abbrev pub begun : World → World
begun w = record w { faults = later_faults w.faults; session = opened }

-- The body has returned, its commit has had its effect, and only the acknowledgement was lost.
pub record IsUnacknowledged {A : Type 0} (m : App A) (w : World) (e : Error) (w' : World)
    : Type 0 where
  pub value : A
  pub behind : World
  pub returned : m (begun w) ≡ (ok value, behind)
  pub number : ℕ
  pub lost : first_fault behind.faults ≡ some (acknowledgement_lost number)
  pub error : e ≡ Error.backend number
  pub made : w'.db ≡ behind.db

-- all that the body has written, or nothing of it
abbrev pub IsAtomic : {A : Type 0} → App A → World → Result A × World → Type 0
IsAtomic m w (ok a, w') =
    (v : World) × (m (begun w) ≡ (ok a, v)) × (w'.db ≡ v.db) × (w'.session ≡ idle)
IsAtomic m w (err e, w') = ((w'.db ≡ w.db) ⊎ IsUnacknowledged m w e w') × (w'.session ≡ idle)

module _ {A : Type 0} (m : App A) (w : World) where
  commit-IsAtomic :
      (s : Session) (o : Option Fault) (a : A) (v : World)
      → m (begun w) ≡ (ok a, v)
      → first_fault v.faults ≡ o
      → IsAtomic m w (commit w s o a (record v { faults = later_faults v.faults }))
  commit-IsAtomic aborted o a v r f = (inl refl, refl)
  commit-IsAtomic idle none a v r f = (v, r, refl, refl)
  commit-IsAtomic opened none a v r f = (v, r, refl, refl)
  commit-IsAtomic idle (some (safe_to_retry n)) a v r f = (inl refl, refl)
  commit-IsAtomic idle (some (unsafe_to_retry n)) a v r f = (inl refl, refl)
  commit-IsAtomic idle (some (acknowledgement_lost n)) a v r f = (
    inr (record {
      value = a;
      behind = v;
      returned = r;
      number = n;
      lost = f;
      error = refl;
      made = refl;
    }),
    refl,
  )
  commit-IsAtomic opened (some (safe_to_retry n)) a v r f = (inl refl, refl)
  commit-IsAtomic opened (some (unsafe_to_retry n)) a v r f = (inl refl, refl)
  commit-IsAtomic opened (some (acknowledgement_lost n)) a v r f = (
    inr (record {
      value = a;
      behind = v;
      returned = r;
      number = n;
      lost = f;
      error = refl;
      made = refl;
    }),
    refl,
  )

  finish-IsAtomic : (r : Result A) (v : World) → m (begun w) ≡ (r, v) → IsAtomic m w (finish w r v)
  finish-IsAtomic (ok a) v r = commit-IsAtomic v.session (first_fault v.faults) a v r refl
  finish-IsAtomic (err e) v r = (inl refl, refl)

  begin-IsAtomic :
      (o : Option Fault)
      → w.session ≡ idle
      → IsAtomic m w (begin w o m (record w { faults = later_faults w.faults }))
  begin-IsAtomic none i = finish-IsAtomic (m (begun w)).0 (m (begun w)).1 refl
  begin-IsAtomic (some e) i = (inl refl, i)

  within-IsAtomic : (s : Session) → s ≡ idle → w.session ≡ idle → IsAtomic m w (within s m w)
  within-IsAtomic idle e i = begin-IsAtomic (first_fault w.faults) i
  within-IsAtomic opened e i = absurd (cc)
  within-IsAtomic aborted e i = absurd (cc)

  -- Outside a transaction, `WithinTx` with any body is all or nothing, and leaves no transaction open:
  -- when it returns, its body has returned the same, and the tables are those that the body has made;
  -- when it reports an error, they are what they were, but where the body has returned and only the
  -- acknowledgement of the commit was lost, whose error it then reports: there they are again those
  -- that the body has made.
  pub within_tx-IsAtomic : w.session ≡ idle → IsAtomic m w (within_tx m w)
  unfolding within_tx
  within_tx-IsAtomic i = within-IsAtomic w.session i i
