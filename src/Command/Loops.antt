-- ===== src/Command/Loops.antt =====
-- cmd/croupier/lifecycle.go: a background loop and the hook that stops it, which run at the same time,
-- and the run of the resolver in such a loop.
pub mod Stops
pub mod Ticks
use croupier.Prelude.{ℕ, ◌≡◌, Bool, true, false, Option, none, some, List, [], ◌∷◌}
use croupier.Errors.{Result, ok, err}
use croupier.Store.Monad.{App, pure, attempt, read_clock, ◌>>=◌, ◌>>◌}
use croupier.App.Env.{Env}
use croupier.App.Resolver.{Resolver, resolve_due}
use croupier.Command.{RunEnd, finished, cancelled as cancelled_run, failed, second, next_backoff}

-- where the goroutine stands, with its variable `backoff`
pub data LoopState : Type 0 where
  running waiting : ℕ → LoopState
  ended : LoopState

-- what OnStop returns: nil, "did not stop within" or the error of its context
pub data StopResult : Type 0 where
  in_time timed_out abandoned : StopResult

pub data StopState : Type 0 where
  unasked stopping : StopState
  stopped : StopResult → StopState

pub record Background : Type 0 where
  pub loop : LoopState
  pub cancelled : Bool
  pub stop : StopState

-- behind OnStart
abbrev pub started : Background
started = record { loop = running second; cancelled = false; stop = unasked }

-- `if err == nil || errors.Is(err, context.Canceled) { return }`
abbrev pub after_run : RunEnd → ℕ → LoopState
after_run finished backoff = ended
after_run cancelled_run backoff = ended
after_run (failed e) backoff = waiting backoff

-- One step of the goroutine or of the hook. Either branch of a `select` that is ready may be taken;
-- what the timers do is the runtime's.
pub data Step (s s' : Background) : Type 0 where
  run_ends :
      (end : RunEnd) (backoff : ℕ)
      → s.loop ≡ running backoff
      → s' ≡ record s { loop = after_run end backoff }
      → Step s s'
  gives_up :
      (backoff : ℕ)
      → s.loop ≡ waiting backoff
      → s.cancelled ≡ true
      → s' ≡ record s { loop = ended }
      → Step s s'
  restarts :
      (backoff : ℕ)
      → s.loop ≡ waiting backoff
      → s' ≡ record s { loop = running (next_backoff backoff) }
      → Step s s'
  stop_asked : s.stop ≡ unasked → s' ≡ record s { cancelled = true; stop = stopping } → Step s s'
  sees_done :
      s.stop ≡ stopping → s.loop ≡ ended → s' ≡ record s { stop = stopped in_time } → Step s s'
  times_out : s.stop ≡ stopping → s' ≡ record s { stop = stopped timed_out } → Step s s'
  is_abandoned : s.stop ≡ stopping → s' ≡ record s { stop = stopped abandoned } → Step s s'

pub data Reach : Background → Type 0 where
  here : Reach started
  next : {s s' : Background} → Reach s → Step s s' → Reach s'

-- what the `select` of a polling loop sees
pub data Wake : Type 0 where
  ticked context_done : Wake

module _ (env : Env) (resolver : Resolver) where
  -- a tick of `registerPendingReferenceResolver`, whose error is only logged
  unfoldable pub resolver_tick : App (Unit {0})
  resolver_tick = do
    now ← read_clock env.clock
    outcome ← attempt (resolve_due env resolver now 50)
    pure tt

  -- its loop, over what it sees: how it ends, if it does
  unfoldable pub resolver_run : List Wake → App (Option RunEnd)
  unfolding resolver_tick
  resolver_run [] = pure none
  resolver_run (context_done ∷ wakes) = pure (some cancelled_run)
  resolver_run (ticked ∷ wakes) = do let rest = resolver_run wakes; resolver_tick; rest
