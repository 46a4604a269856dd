-- ===== src/Http/Server.antt =====
-- internal/httpapi/server.go and health.go: the routes with their guards, and what surrounds a request.
-- The access log and the metrics, with the route that shows them, are left out.
pub mod Safety
pub mod Entitled
pub mod Isolation
pub mod Reads
pub mod Books
pub mod Live
use croupier.Prelude.{String, str_eq, Option, none, some, if◌then◌else◌, suc}
use croupier.Errors.{Result, ok, err}
use croupier.App.Env.{Env}
use croupier.Http.{
  Request, Route, Web, Handler, write_json, health, create_wallet, get_wallet, list_wallet_ledger,
  reconcile_wallet, submit_wager_transaction, get_wager_transaction,
  get_wager_transaction_by_provider, health_live, health_ready,
}
use croupier.Http.Guards.{require_auth, require_internal_role}
use croupier.Http.Wallets.{
  create_wallet as handle_create_wallet, get_wallet_by_id, list_wallet_ledger as handle_list_ledger,
  reconcile_wallet as handle_reconcile,
}
use croupier.Http.Wagering.{
  submit_wager_transaction as handle_submit, get_wager_transaction as handle_get_transaction,
  get_wager_transaction_by_provider as handle_get_by_provider,
}

-- `healthReady`
abbrev pub ready : Option (Result (Unit {0})) → Handler
ready none = write_json 200 (health "ok" none)
ready (some (ok _)) = write_json 200 (health "ok" none)
ready (some (err e)) = write_json 503 (health "unavailable" (some e))

module _ (env : Env) (web : Web) where
  -- the table of `NewServer`
  unfoldable pub route_handler : Route → Request → String → Handler
  route_handler create_wallet r id =
      require_internal_role web r λ _. handle_create_wallet env web r id
  route_handler (get_wallet wallet_id) r id =
      require_internal_role web r λ _. get_wallet_by_id env web wallet_id
  route_handler (list_wallet_ledger wallet_id cursor limit) r id =
      require_internal_role web r λ _. handle_list_ledger env web wallet_id cursor limit
  route_handler (reconcile_wallet wallet_id) r id =
      require_internal_role web r λ _. handle_reconcile env web wallet_id
  route_handler submit_wager_transaction r id = require_auth web r (handle_submit env web r id)
  route_handler (get_wager_transaction transaction_id) r id =
      require_internal_role web r λ _. handle_get_transaction env web transaction_id
  route_handler (get_wager_transaction_by_provider provider_id external_id) r id =
      require_auth web r (handle_get_by_provider env web provider_id external_id)
  route_handler health_live r id = write_json 200 (health "ok" none)
  route_handler health_ready r id = ready web.ready

  -- `ServeHTTP`: the correlation id is that of the header, or a new UUID
  unfoldable pub serve : Request → Handler
  unfolding route_handler
  serve r w =
      if str_eq r.correlation_id ""
      then route_handler r.route r (env.uuid_text (env.new_uuid w.uuids))
          (record w { uuids = suc w.uuids })
      else route_handler r.route r r.correlation_id w
