-- ===== src/Command/Loops/Stops.antt =====
-- What holds of a background loop in every interleaving with the hook that stops it.
use croupier.Prelude.{ℕ, ◌≡◌, ◌⊎◌, inl, inr, refl, true, ◌≤◌, arith}
use croupier.Command.{
  RunEnd, finished, cancelled as cancelled_run, failed, second, max_backoff, next_backoff,
}
use croupier.Command.Loops.{
  LoopState, running, waiting, ended, unasked, stopped, in_time, Background, after_run, Step,
  run_ends, gives_up, restarts, stop_asked, sees_done, times_out, is_abandoned, Reach, here, next,
}

-- the wait before a restart, where there is one to come
abbrev pub IsBounded : LoopState → Type 0
IsBounded (running b) = (second ≤ b) × (b ≤ max_backoff)
IsBounded (waiting b) = (second ≤ b) × (b ≤ max_backoff)
IsBounded ended = Unit {0}

pub record IsSound (s : Background) : Type 0 where
  pub bounded : IsBounded s.loop
  pub told : (s.stop ≡ unasked) ⊎ (s.cancelled ≡ true)
  pub over : s.stop ≡ stopped in_time → s.loop ≡ ended

next_backoff_bounded :
    (b : ℕ) → second ≤ b → (second ≤ next_backoff b) × (next_backoff b ≤ max_backoff)
unfolding next_backoff
next_backoff_bounded b h = ground arith

after_run-IsBounded :
    (end : RunEnd) (b : ℕ) → (second ≤ b) × (b ≤ max_backoff) → IsBounded (after_run end b)
after_run-IsBounded finished b h = tt
after_run-IsBounded cancelled_run b h = tt
after_run-IsBounded (failed e) b h = h

Step-IsSound : (s s' : Background) → Step s s' → IsSound s → IsSound s'
Step-IsSound s s' (run_ends end b l e) h = rw e (record {
  bounded = after_run-IsBounded end b (rw l at h.bounded);
  told = h.told;
  over = λ o. absurd (ground (arith, h.over o));
})
Step-IsSound s s' (gives_up b l c e) h =
    rw e (record { bounded = tt; told = h.told; over = λ o. refl })
Step-IsSound s s' (restarts b l e) h = rw e (record {
  bounded = next_backoff_bounded b (rw l at h.bounded).0;
  told = h.told;
  over = λ o. absurd (ground (arith, h.over o));
})
Step-IsSound s s' (stop_asked u e) h =
    rw e (record { bounded = h.bounded; told = inr refl; over = λ o. absurd (cc) })
Step-IsSound s s' (sees_done u l e) h =
    rw e (record { bounded = h.bounded; told = ground arith; over = λ o. l })
Step-IsSound s s' (times_out u e) h =
    rw e (record { bounded = h.bounded; told = ground arith; over = λ o. absurd (cc) })
Step-IsSound s s' (is_abandoned u e) h =
    rw e (record { bounded = h.bounded; told = ground arith; over = λ o. absurd (cc) })

-- However the steps of the loop and of its hook alternate, OnStop returns nil only where the loop has
-- ended, it has been told to stop wherever the hook runs, and the wait before a restart is between 1
-- and 30 seconds.
pub Reach-IsSound : {s : Background} → Reach s → IsSound s
Reach-IsSound here = record {
  bounded = (omega arith, omega arith);
  told = inl refl;
  over = λ o. absurd (cc);
}
Reach-IsSound (next {s} {s'} r step) = Step-IsSound s s' step (Reach-IsSound r)
