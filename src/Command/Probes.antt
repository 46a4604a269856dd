-- ===== src/Command/Probes.antt =====
-- cmd/croupier/providers.go: the readiness check and one poll of the depth of the dead-letter queue.
-- The pool of connections, the client of SQS and strconv.ParseFloat are parameters.
use croupier.Prelude.{String, List, [], ◌∷◌}
use croupier.Errors.{Result, ok, ◌>>=◌, ◌>>◌}
use croupier.Metrics.{Report, set_dlq_depth}

-- what the probes call; the attributes of a queue are a Go map, where a missing name gives ""
pub record Backends (Float : Type 0) : Type 0 where
  pub ping : Result (Unit {0})
  pub get_queue_attributes : String → List String → Result (String → String)
  pub parse_float : String → Result Float

-- `readyChecker.check`; the errors are wrapped in a text there
unfoldable pub check : {Float : Type 0} → Backends Float → String → Result (Unit {0})
check backends sqs_queue_url = do
  backends.ping
  attributes ← backends.get_queue_attributes sqs_queue_url []
  ok tt

-- `dlqDepthPoller.poll`: the reports to the metrics
unfoldable pub poll :
    {Float : Type 0} → Backends Float → String → String → Result (List (Report Float))
poll backends queue_url queue = do
  attributes ← backends.get_queue_attributes queue_url ("ApproximateNumberOfMessages" ∷ [])
  depth ← backends.parse_float (attributes "ApproximateNumberOfMessages")
  ok (set_dlq_depth queue depth)
