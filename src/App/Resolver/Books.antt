-- ===== src/App/Resolver/Books.antt =====
-- The resolver keeps the books, whatever becomes of each pending reversal.
use croupier.Prelude.{ℕ, String, ◌≡◌, Bool, List, [], ◌∷◌}
use croupier.Values.{Uuid, Time}
use croupier.Wager.{Transaction}
use croupier.Store.Monad.{World, idle}
use croupier.Store.Keeps.{
  Keeps, Keeps-pure, Keeps-query, Keeps-exec, Keeps-draw_uuid, Keeps-bind, Keeps-if,
}
use croupier.Store.Pending.{PendingReferenceRetry, find_due_pending_references, schedule_next_retry}
use croupier.Store.Books.Writes.{On, ok_written}
use croupier.App.Env.{Env}
use croupier.App.Movement.Conservation.{Reconciled}
use croupier.App.Submit.Books.{process-Keeps, reject-Keeps}
use croupier.App.Resolver.{
  Resolver, is_expired, expire, retry, resolve_one, resolve_all, resolve_due,
}

schedule_next_retry-Keeps :
    (id : Uuid) (next : Time) → Keeps (On Reconciled) (schedule_next_retry id next)
unfolding schedule_next_retry
schedule_next_retry-Keeps id next = Keeps-exec _ (λ db db' e b. ok_written Reconciled e b)

find_due-Keeps :
    (parse_iso : String → Bool) (now : Time) (limit : ℕ)
    → Keeps (On Reconciled) (find_due_pending_references parse_iso now limit)
unfolding find_due_pending_references
find_due-Keeps parse_iso now limit = Keeps-query _

module _ (env : Env) (r : Resolver) (now : Time) where
  retry-Keeps :
      (item : PendingReferenceRetry) (c : String) → Keeps (On Reconciled) (retry env r now item c)
  unfolding retry
  retry-Keeps item c =
      Keeps-bind (process-Keeps env item.transaction c)
        λ result. Keeps-if _ (schedule_next_retry-Keeps _ _) (Keeps-pure _)

  expire-Keeps : (tx : Transaction) (c : String) → Keeps (On Reconciled) (expire env r tx c)
  unfolding expire
  expire-Keeps tx c = Keeps-bind (reject-Keeps env tx _ c) λ result. Keeps-pure _

  resolve_one-Keeps :
      (item : PendingReferenceRetry) → Keeps (On Reconciled) (resolve_one env r now item)
  unfolding resolve_one
  resolve_one-Keeps item = Keeps-bind (Keeps-draw_uuid _) λ id.
      Keeps-if (is_expired env r now item) (expire-Keeps item.transaction _) (retry-Keeps item _)

  resolve_all-Keeps :
      (items : List PendingReferenceRetry) → Keeps (On Reconciled) (resolve_all env r now items)
  unfolding resolve_all
  resolve_all-Keeps [] = Keeps-pure _
  resolve_all-Keeps (item ∷ items) =
      Keeps-bind (resolve_one-Keeps item) λ _. resolve_all-Keeps items

  resolve_due-Keeps : (limit : ℕ) → Keeps (On Reconciled) (resolve_due env r now limit)
  unfolding resolve_due
  resolve_due-Keeps limit =
      Keeps-bind (find_due-Keeps _ now limit)
        λ due. Keeps-bind (resolve_all-Keeps due) λ _. Keeps-pure _

  -- From right books a round of the resolver leaves right books, also one that an error ends early.
  pub resolve_due-Reconciled :
      (limit : ℕ) (w : World)
      → w.session ≡ idle
      → Reconciled w.db.wallets w.db.ledger
      → let w' = (resolve_due env r now limit w).1 in
        Reconciled w'.db.wallets w'.db.ledger × (w'.session ≡ idle)
  resolve_due-Reconciled limit w i p = let (q, j) = (resolve_due-Keeps limit).at w i p in (q, j)
