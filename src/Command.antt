-- ===== src/Command.antt =====
-- cmd/croupier/lifecycle.go: the loops that the process runs in the background. Tickers and goroutines
-- are the runtime's; a tick is one call here.
pub mod Config
pub mod Probes
pub mod Drain
pub mod Restarts
pub mod Loops
use croupier.Prelude.{
  ℕ, zero, suc, ◌*◌, ltb, Bool, true, false, Option, none, some, List, [], ◌∷◌, if◌then◌else◌,
}
use croupier.Prelude.Int.{ℤ}
use croupier.Errors.{Error, Result, ok, err}
use croupier.Outbox.{Entry}
use croupier.Store.Monad.{App, pure, attempt, ◌>>=◌}
use croupier.App.Env.{Env}
use croupier.App.Worker.{run_once}

-- nanoseconds of a time.Duration
abbrev pub second : ℕ
second = 1000000000

abbrev pub max_backoff : ℕ
max_backoff = 30 * second

-- `if backoff *= 2; backoff > maxBackoff { backoff = maxBackoff }`
unfoldable pub next_backoff : ℕ → ℕ
next_backoff backoff = if ltb max_backoff (backoff * 2) then max_backoff else backoff * 2

-- how one run of a background loop ends
pub data RunEnd : Type 0 where
  finished cancelled : RunEnd
  failed : Error → RunEnd

-- `registerBackgroundLoop`: the waits before the restarts, for runs that end so, from this backoff on
unfoldable pub waits : ℕ → List RunEnd → List ℕ
unfolding next_backoff
waits backoff [] = []
waits backoff (finished ∷ ends) = []
waits backoff (cancelled ∷ ends) = []
waits backoff (failed e ∷ ends) = let rest = waits (next_backoff backoff) ends in backoff ∷ rest

module _ (env : Env) (publish : Entry → Option Error) (backoff_base : ℤ) where
  -- what the inner loop of `registerOutboxWorker` does after `RunOnce`
  unfoldable pub drain_on : App Bool → Result Bool → App Bool
  drain_on rest (err e) = pure true
  drain_on rest (ok false) = pure true
  drain_on rest (ok true) = rest

  -- That loop, on fuel: whether it has come to its end.
  unfoldable pub drain : ℕ → App Bool
  unfolding drain_on
  drain zero = pure false
  drain (suc fuel) = do
    let rest = drain fuel
    processed ← attempt (run_once env publish backoff_base)
    drain_on rest processed
