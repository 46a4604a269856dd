-- ===== src/Values.antt =====
-- The values of third-party and standard types that the program only compares: a uuid.UUID is its
-- 128 bits as a number, with `uuid.Nil` 0; a time.Time is the nanoseconds since the zero time, so
-- `IsZero` is a test against 0, and a time.Duration is an int64 of nanoseconds. What `uuid.New` and
-- `time.Now` return is an argument of the functions that call them.
use croupier.Prelude.{ℕ, ◌/◌, ◌*◌, Bool, true, false, Option, none, some}

abbrev pub Uuid : Type 0
Uuid = ℕ

abbrev pub nil_uuid : Uuid
nil_uuid = 0

abbrev pub Time : Type 0
Time = ℕ

-- What a timestamptz column keeps of a time: pgx sends whole microseconds, and cuts off the rest.
unfoldable pub micros : Time → Time
micros t = t / 1000 * 1000

-- A SHA-256 digest.
abbrev pub Digest : Type 0
Digest = ℕ

abbrev pub is_some {ℓ} : {A : Type ℓ} → Option A → Bool
is_some none = false
is_some (some a) = true
