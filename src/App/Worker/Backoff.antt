-- ===== src/App/Worker/Backoff.antt =====
-- The delays between retries.
use native.Mathlib.Nat.{pow-le-pow_right, mul-le-mul, mul-le-mul_left}
use croupier.Prelude.{ltb, if◌then◌else◌, ◌∙◌, ap, ℕ, ◌≡◌, ◌≤◌, ◌*◌, ◌^◌, arith}
use croupier.Prelude.Int.{ℤ, pos, negsuc, ◌≤ℤ◌}
use croupier.Prelude.Int64.{wrap64_id}
use croupier.App.Worker.{backoff_delay, shift_of}

-- A base of 2 ^ 42 nanoseconds, about an hour and thirteen minutes, leaves room for every shift.
abbrev pub largest_base : ℕ
largest_base = 2 ^ 42

shift-le : (a : ℤ) → shift_of a ≤ 20
shift-le a = ground arith

shift_mono : (a b : ℤ) → a ≤ℤ b → shift_of a ≤ shift_of b
shift_mono a b h = ground arith

delay_bound : (n k : ℕ) → n ≤ largest_base → k ≤ 20 → n * 2 ^ k ≤ 2 ^ 62
delay_bound n k hn hk = mul-le-mul hn (pow-le-pow_right (omega arith) hk)

-- the number of attempts, cut to the range from 0 to 20
abbrev pub attempts_cut : ℤ → ℕ
attempts_cut (negsuc n) = 0
attempts_cut (pos n) = if ltb n 20 then n else 20

shift_cut : (a : ℤ) → shift_of a ≡ attempts_cut a
shift_cut (negsuc n) = ground arith
shift_cut (pos n) = ground arith

backoff_shifted :
    (n : ℕ) (a : ℤ) → n ≤ largest_base → backoff_delay (pos n) a ≡ pos (n * 2 ^ shift_of a)
unfolding backoff_delay
backoff_shifted n a h =
    wrap64_id (pos (n * 2 ^ shift_of a)) (omega (arith, delay_bound n (shift_of a) h (shift-le a)))

-- Up to that base the delay is the base times two to the number of attempts, cut to the range from 0 to 20,
-- with no overflow of the Duration.
pub backoff_exact :
    (n : ℕ) (a : ℤ) → n ≤ largest_base → backoff_delay (pos n) a ≡ pos (n * 2 ^ attempts_cut a)
backoff_exact n a h = backoff_shifted n a h ∙ ap (λ (k : ℕ). pos (n * 2 ^ k)) (shift_cut a)

-- More attempts never shorten the delay.
pub backoff_mono :
    (n : ℕ) (a b : ℤ)
    → n ≤ largest_base
    → a ≤ℤ b
    → backoff_delay (pos n) a ≤ℤ backoff_delay (pos n) b
backoff_mono n a b h ab =
    rw (backoff_shifted n a h, backoff_shifted n b h)
      (omega
        (arith, mul-le-mul_left n (pow-le-pow_right {n = 2} (omega arith) (shift_mono a b ab))))
