-- ===== src/Command/Loops/Ticks.antt =====
-- The polling loop of the resolver lives through the errors of its rounds.
use croupier.Prelude.{suc, ◌≡◌, refl, Option, none, some, List, [], ◌∷◌}
use croupier.Errors.{ok}
use croupier.Store.Monad.{World, idle, attempt, read_clock, ◌>>=◌}
use croupier.App.Env.{Env}
use croupier.App.Movement.Conservation.{Reconciled}
use croupier.App.Resolver.{Resolver, resolve_due}
use croupier.App.Resolver.Books.{resolve_due-Reconciled}
use croupier.Command.{RunEnd, cancelled as cancelled_run}
use croupier.Command.Loops.{Wake, ticked, context_done, resolver_tick, resolver_run}

-- at the first sight of the cancelled context, and not before
abbrev pub end_of : List Wake → Option RunEnd
end_of [] = none
end_of (context_done ∷ wakes) = some cancelled_run
end_of (ticked ∷ wakes) = end_of wakes

module _ (env : Env) (resolver : Resolver) where
  -- From right books, whatever becomes of its ticks and whichever database calls fail, the loop of the
  -- resolver returns no error: it ends where it first sees the cancelled context, and so is never
  -- restarted, and leaves right books and no transaction open.
  pub resolver_run-Endures :
      (wakes : List Wake) (w : World)
      → w.session ≡ idle
      → Reconciled w.db.wallets w.db.ledger
      → let (outcome, w') = resolver_run env resolver wakes w in
        (outcome ≡ ok (end_of wakes)) × Reconciled w'.db.wallets w'.db.ledger × (w'.session ≡ idle)
  unfolding resolver_run resolver_tick attempt read_clock ◌>>=◌
  resolver_run-Endures [] w i books = (refl, books, i)
  resolver_run-Endures (context_done ∷ wakes) w i books = (refl, books, i)
  resolver_run-Endures (ticked ∷ wakes) w i books =
      let started = record w { readings = suc w.readings } in
      let now = env.clock w.readings in
      let (kept, j) = resolve_due-Reconciled env resolver now 50 started i books in
      resolver_run-Endures wakes (resolve_due env resolver now 50 started).1 j kept
