-- ===== src/Metrics.antt =====
-- internal/metrics: what each report of the program asks of the Prometheus instruments, which are not
-- code of the repository. An instrument is named by its field of `Registry`; the conversions to
-- float64, and the seconds of a duration (in nanoseconds), are parameters.
use croupier.Prelude.{String, Bool, List, [], ◌∷◌, str_eq, if◌then◌else◌}
use croupier.Prelude.Int.{ℤ, pos, leb_ℤ, ltb_ℤ}
use croupier.Prelude.Int64.{sub64}

-- a call of an instrument with its label values
pub data Report (Float : Type 0) : Type 0 where
  inc : String → List String → Report Float
  observe : String → List String → Float → Report Float
  set : String → List String → Float → Report Float

-- `statusBucket`
unfoldable pub status_bucket : ℤ → String
status_bucket status =
    if leb_ℤ (pos 500) status
    then "5xx"
    else (if leb_ℤ (pos 400) status
        then "4xx"
        else (if leb_ℤ (pos 300) status then "3xx" else "2xx"))

module _ {Float : Type 0} where
  -- `ObserveWagerSubmission`
  unfoldable pub observe_wager_submission : String → String → List (Report Float)
  observe_wager_submission kind outcome = inc "wagerSubmissionsTotal" (kind ∷ outcome ∷ []) ∷ []

  -- `ObservePendingReferenceResolution`
  unfoldable pub observe_pending_reference_resolution : String → List (Report Float)
  observe_pending_reference_resolution outcome =
      inc "pendingReferenceResolutionsTotal" (outcome ∷ []) ∷ []

  -- `ObserveSQSMessage`
  unfoldable pub observe_sqs_message : String → String → List (Report Float)
  observe_sqs_message consumer result = inc "sqsMessagesTotal" (consumer ∷ result ∷ []) ∷ []

  -- `SetDLQDepth`
  unfoldable pub set_dlq_depth : String → Float → List (Report Float)
  set_dlq_depth queue depth = set "dlqDepth" (queue ∷ []) depth ∷ []

module _ {Float : Type 0} (float64 : ℤ → Float) where
  -- `ObserveReconciliation`; the negation wraps around
  unfoldable pub observe_reconciliation : Bool → ℤ → List (Report Float)
  observe_reconciliation consistent difference =
      inc "reconciliationsTotal" ((if consistent then "true" else "false") ∷ [])
      ∷ observe "reconciliationDifference" []
          (float64 (if ltb_ℤ difference (pos 0) then sub64 (pos 0) difference else difference))
      ∷ []

module _ {Float : Type 0} (seconds : ℤ → Float) where
  -- `ObserveRequest`
  unfoldable pub observe_request : String → String → ℤ → ℤ → List (Report Float)
  unfolding status_bucket
  observe_request method pattern status duration =
      observe "httpRequestDuration" (method ∷ pattern ∷ status_bucket status ∷ [])
        (seconds duration)
      ∷ []

  -- `ObserveOutboxPublish`
  unfoldable pub observe_outbox_publish : String → ℤ → List (Report Float)
  observe_outbox_publish outcome age =
      inc "outboxPublishTotal" (outcome ∷ [])
      ∷ (if str_eq outcome "success"
          then observe "outboxPublishLatency" [] (seconds age) ∷ []
          else [])

  -- `ObserveSQSMessageDuration`
  unfoldable pub observe_sqs_message_duration : String → ℤ → List (Report Float)
  observe_sqs_message_duration consumer duration =
      observe "sqsMessageProcessingDuration" (consumer ∷ []) (seconds duration) ∷ []
