-- ===== src/Command/Restarts.antt =====
-- A loop that keeps failing is restarted after 1, 2, 4, 8, 16 and then 30 seconds each time.
use croupier.Prelude.{ℕ, suc, ◌≡◌, refl, ◌*◌, ◌^◌, ltb, arith, List, [], ◌∷◌, map, if◌then◌else◌}
use croupier.Errors.{Error}
use croupier.Command.{second, max_backoff, next_backoff, failed, waits}

-- `2 ^ k` seconds, and no more than 30
abbrev capped : ℕ → ℕ
capped k = if ltb max_backoff (second * 2 ^ k) then max_backoff else second * 2 ^ k

capped-next : (k : ℕ) → next_backoff (capped k) ≡ capped (suc k)
unfolding next_backoff
capped-next k = ground arith

abbrev pub waits_from : ℕ → List Error → List ℕ
waits_from k [] = []
waits_from k (e ∷ es) = capped k ∷ waits_from (suc k) es

waits_of : (k : ℕ) (es : List Error) → waits (capped k) (map failed es) ≡ waits_from k es
unfolding waits
waits_of k [] = refl
waits_of k (e ∷ es) = rw (capped-next k, waits_of (suc k) es) refl

-- However the runs of a loop fail, the loop is restarted after each, the k-th time (from 0) after 2^k
-- seconds, and never after more than 30.
pub waits-failed : (es : List Error) → waits second (map failed es) ≡ waits_from 0 es
waits-failed es = waits_of 0 es
