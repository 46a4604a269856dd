-- ===== src/Store/Keeps/Answers.antt =====
-- What a call keeps that looks at the outcome of a read.
use croupier.Prelude.{◌≡◌, refl, ap, Option, none, some}
use croupier.Errors.{Error, Result, err}
use croupier.Store.Tables.{Db}
use croupier.Store.Monad.{
  World, Fault, safe_to_retry, unsafe_to_retry, acknowledgement_lost, Session, idle, opened,
  aborted, App, ◌>>=◌, attempt, query, deliver, statement, fail_session, first_fault, later_faults,
}
use croupier.Store.Rules.{IsFault, no_connection, broken}
use croupier.Store.Inside.{Outcome, stopped}
use croupier.Store.Keeps.{Keeps, Kept}

-- A read whose result the caller looks at: what the tables give, or a fault.
module _ {A B : Type 0} {P : Db → Type 0} (f : Db → Result A) (k : Result A → App B)
    (returned : (r : Result A) (db : Db) → f db ≡ r → P db → Keeps P (k r))
    (failed : (e : Error) → IsFault e → Keeps P (k (err e))) where
  delivered_keeps :
      (o : Option Fault) (w : World)
      → w.session ≡ idle
      → P w.db
      → let (r, w') = deliver o (λ v. (f v.db, v)) w in Kept P (k r w')
  delivered_keeps none w i p = let (q, j) = (returned (f w.db) w.db refl p).at w i p in (q, j)
  delivered_keeps (some (safe_to_retry n)) w i p =
      let (q, j) =
        (failed _ no_connection).at (record w { session = fail_session w.session })
          (ap fail_session i) p in
      (q, j)
  delivered_keeps (some (unsafe_to_retry n)) w i p =
      let (q, j) =
        (failed _ (broken n)).at (record w { session = fail_session w.session }) (ap fail_session i)
          p in
      (q, j)
  delivered_keeps (some (acknowledgement_lost n)) w i p =
      let (q, j) =
        (failed _ (broken n)).at (record w { session = fail_session w.session }) (ap fail_session i)
          p in
      (q, j)

  delivered_inside :
      (o : Option Fault) (w : World)
      → w.session ≡ opened
      → P w.db
      → let (r, w') = deliver o (λ v. (f v.db, v)) w in Outcome P (λ _. P) (k r w')
  delivered_inside none w s p = (returned (f w.db) w.db refl p).inside.at w s p
  delivered_inside (some (safe_to_retry n)) w s p =
      stopped P (λ _. P) _ ((failed _ no_connection).inside.stays _ (ap fail_session s))
  delivered_inside (some (unsafe_to_retry n)) w s p =
      stopped P (λ _. P) _ ((failed _ (broken n)).inside.stays _ (ap fail_session s))
  delivered_inside (some (acknowledgement_lost n)) w s p =
      stopped P (λ _. P) _ ((failed _ (broken n)).inside.stays _ (ap fail_session s))

  asked_inside :
      (s : Session) (w : World)
      → s ≡ opened
      → w.session ≡ opened
      → P w.db
      → let (r, w') = statement s (λ v. (f v.db, v)) w in Outcome P (λ _. P) (k r w')
  asked_inside opened w e s p =
      delivered_inside (first_fault w.faults) (record w { faults = later_faults w.faults }) s p
  asked_inside idle w e s p = absurd (cc)
  asked_inside aborted w e s p = absurd (cc)

  asked_stays :
      (s : Session) (w : World)
      → s ≡ aborted
      → w.session ≡ aborted
      → let (r, w') = statement s (λ v. (f v.db, v)) w in (k r w').1.session ≡ aborted
  asked_stays aborted w e s = (failed _ (broken 0)).inside.stays w s
  asked_stays idle w e s = absurd (cc)
  asked_stays opened w e s = absurd (cc)

  asked_keeps :
      (s : Session) (w : World)
      → s ≡ idle
      → w.session ≡ idle
      → P w.db
      → let (r, w') = statement s (λ v. (f v.db, v)) w in Kept P (k r w')
  asked_keeps idle w e i p =
      delivered_keeps (first_fault w.faults) (record w { faults = later_faults w.faults }) i p
  asked_keeps opened w e i p = absurd (cc)
  asked_keeps aborted w e i p = absurd (cc)

  pub Keeps-attempt-query : Keeps P (attempt (query f) >>= k)
  unfolding attempt query ◌>>=◌
  Keeps-attempt-query = record {
    at = λ w i p. asked_keeps w.session w i i p;
    inside = record {
      at = λ w s p. asked_inside w.session w s s p;
      stays = λ w s. asked_stays w.session w s s;
    };
  }
