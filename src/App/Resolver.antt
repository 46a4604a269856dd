-- ===== src/App/Resolver.antt =====
-- internal/app/pending_reference_resolver.go: the retries of reversals whose reference is missing.
pub mod Books
pub mod Run
pub mod Resolves
use croupier.Prelude.{ℕ, String, Bool, true, false, ◌||◌, List, [], ◌∷◌, length, leb, if◌then◌else◌}
use croupier.Prelude.Int.{ℤ, pos, sub_ℕ, ltb_ℤ, leb_ℤ}
use croupier.Prelude.Int64.{max_int64, min_int64}
use croupier.Values.{Uuid, Time}
use croupier.Wager.{Transaction, is_pending_reference}
use croupier.Store.Monad.{App, pure, draw_uuid, ◌>>=◌, ◌>>◌}
use croupier.Store.Pending.{PendingReferenceRetry, find_due_pending_references, schedule_next_retry}
use croupier.App.Env.{Env}
use croupier.App.Movement.{SubmitResult, reject}
use croupier.App.Submit.{process}
use croupier.App.Worker.{backoff_delay, add_time}

abbrev pub failure_reference_not_found : String
failure_reference_not_found = "REFERENCE_NOT_FOUND"

-- `Time.Sub`: a Duration, saturated
abbrev pub since : Time → Time → ℤ
since now t =
    let d = sub_ℕ now t in
    if ltb_ℤ max_int64 d then max_int64 else if ltb_ℤ d min_int64 then min_int64 else d

pub record Resolver : Type 0 where
  pub max_attempts : ℤ
  pub ttl : ℤ
  pub backoff_base : ℤ

module _ (env : Env) (r : Resolver) where
  -- `item.Attempts >= r.maxAttempts || now.Sub(tx.CreatedAt()) >= r.ttl`
  unfoldable pub is_expired : Time → PendingReferenceRetry → Bool
  is_expired now item =
      leb_ℤ r.max_attempts (pos item.attempts)
      || leb_ℤ r.ttl (since now item.transaction.created_at)

  expire : Transaction → String → App (Unit {0})
  expire tx correlation_id = do reject env tx failure_reference_not_found correlation_id; pure tt

  retry : Time → PendingReferenceRetry → String → App (Unit {0})
  retry now item correlation_id = do
    result ← process env item.transaction correlation_id
    let next = add_time now (backoff_delay r.backoff_base (pos item.attempts))
    let waits = is_pending_reference result.transaction.status
    if waits then schedule_next_retry item.transaction.id next else pure tt

  -- `resolveOne`
  unfoldable pub resolve_one : Time → PendingReferenceRetry → App (Unit {0})
  unfolding expire retry is_expired
  resolve_one now item = do
    id ← draw_uuid env.new_uuid
    let correlation_id = env.uuid_text id
    if is_expired now item
        then expire item.transaction correlation_id
        else retry now item correlation_id

  -- the loop of `ResolveDue`, which ends at the first error
  resolve_all : Time → List PendingReferenceRetry → App (Unit {0})
  unfolding resolve_one
  resolve_all now [] = pure tt
  resolve_all now (item ∷ items) = resolve_one now item >> resolve_all now items

  -- `ResolveDue`
  unfoldable pub resolve_due : Time → ℕ → App ℕ
  unfolding resolve_all
  resolve_due now limit = do
    due ← find_due_pending_references env.parse_iso now limit
    resolve_all now due
    pure (length due)
