-- ===== src/Command/Config.antt =====
-- cmd/croupier/config.go: the configuration from the environment. os.Getenv, strconv.Atoi and
-- time.ParseDuration are parameters; a duration is its nanoseconds.
use croupier.Prelude.{String, ◌*◌, str_eq, if◌then◌else◌}
use croupier.Prelude.Int.{ℤ, pos}
use Prim.Native.String.{◌++◌}
use croupier.Errors.{Result, ok, ◌>>=◌}
use croupier.Command.{second}

pub record Config : Type 0 where
  pub postgres_dsn : String
  pub sqs_endpoint : String
  pub aws_region : String
  pub wager_transactions_queue_name : String
  pub wager_transactions_dlq_name : String
  pub wallet_events_queue_name : String
  pub sqs_consumer_name : String
  pub dlq_depth_poll_interval : ℤ
  pub keycloak_issuer_url : String
  pub app_port : String
  pub pending_reference_poll_interval : ℤ
  pub pending_reference_max_attempts : ℤ
  pub pending_reference_ttl : ℤ
  pub pending_reference_backoff_base : ℤ
  pub outbox_poll_interval : ℤ
  pub outbox_backoff_base : ℤ
  pub shutdown_timeout : ℤ

-- the environment of the process, and what reads its texts
pub record Environment : Type 0 where
  pub variable : String → String
  pub atoi : String → Result ℤ
  pub parse_duration : String → Result ℤ

module _ (os : Environment) where
  -- `getenv`
  unfoldable pub getenv : String → String → String
  getenv key fallback = let v = os.variable key in if str_eq v "" then fallback else v

  -- the form that `getenvInt` and `getenvDuration` share
  unfoldable pub getenv_parsed : (String → Result ℤ) → String → ℤ → Result ℤ
  getenv_parsed parse key fallback =
      let raw = os.variable key in if str_eq raw "" then ok fallback else parse raw

  -- `getenvInt`; the error is wrapped in a text there
  abbrev pub getenv_int : String → ℤ → Result ℤ
  getenv_int key fallback = getenv_parsed os.atoi key fallback

  -- `getenvDuration`
  abbrev pub getenv_duration : String → ℤ → Result ℤ
  getenv_duration key fallback = getenv_parsed os.parse_duration key fallback

  -- the `fmt.Sprintf` of `LoadConfig`
  unfoldable pub dsn : String
  unfolding getenv
  dsn =
      "postgres://"
      ++ getenv "POSTGRES_USER" "croupier"
      ++ ":"
      ++ getenv "POSTGRES_PASSWORD" "croupier"
      ++ "@"
      ++ getenv "POSTGRES_HOST" "localhost"
      ++ ":"
      ++ getenv "POSTGRES_PORT" "5432"
      ++ "/"
      ++ getenv "POSTGRES_DB" "croupier"
      ++ "?sslmode=disable"

  -- `LoadConfig`
  unfoldable pub load_config : Result Config
  unfolding getenv_parsed dsn
  load_config = do
    max_attempts ← getenv_int "PENDING_REFERENCE_MAX_ATTEMPTS" (pos 10)
    poll_interval ← getenv_duration "PENDING_REFERENCE_POLL_INTERVAL" (pos (5 * second))
    ttl ← getenv_duration "PENDING_REFERENCE_TTL" (pos (86400 * second))
    backoff_base ← getenv_duration "PENDING_REFERENCE_BACKOFF_BASE" (pos (5 * second))
    outbox_poll_interval ← getenv_duration "OUTBOX_POLL_INTERVAL" (pos second)
    outbox_backoff_base ← getenv_duration "OUTBOX_BACKOFF_BASE" (pos (2 * second))
    shutdown_timeout ← getenv_duration "SHUTDOWN_TIMEOUT" (pos (15 * second))
    dlq_depth_poll_interval ← getenv_duration "DLQ_DEPTH_POLL_INTERVAL" (pos (30 * second))
    ok (record {
      postgres_dsn = dsn;
      sqs_endpoint = getenv "SQS_ENDPOINT" "http://localhost:4566";
      aws_region = getenv "AWS_REGION" "us-east-1";
      wager_transactions_queue_name =
          getenv "WAGER_TRANSACTIONS_QUEUE_NAME" "wager-transactions.fifo";
      wager_transactions_dlq_name =
          getenv "WAGER_TRANSACTIONS_DLQ_NAME" "wager-transactions-dlq.fifo";
      wallet_events_queue_name = getenv "WALLET_EVENTS_QUEUE_NAME" "wallet-events.fifo";
      sqs_consumer_name = getenv "SQS_CONSUMER_NAME" "wager-transactions-consumer";
      dlq_depth_poll_interval = dlq_depth_poll_interval;
      keycloak_issuer_url = getenv "KEYCLOAK_ISSUER_URL" "http://localhost:8080/realms/croupier";
      app_port = getenv "APP_PORT" "8081";
      pending_reference_poll_interval = poll_interval;
      pending_reference_max_attempts = max_attempts;
      pending_reference_ttl = ttl;
      pending_reference_backoff_base = backoff_base;
      outbox_poll_interval = outbox_poll_interval;
      outbox_backoff_base = outbox_backoff_base;
      shutdown_timeout = shutdown_timeout;
    })
