-- ===== src/Http/Wagering.antt =====
-- internal/httpapi/wagering.go: the handlers of the wagering routes.
use croupier.Prelude.{ℕ, String, Bool, true, not, ◌&&◌, ◌||◌, ◌==◌, leb, str_eq, if◌then◌else◌}
use Prim.Native.String.{[] as empty, ◌∷◌ as char, ◌++◌ as append}
use Prim.Native.Char.{code}
use croupier.Errors.{Result, ok, err}
use croupier.Auth.{Claims, has_role, internal_service_role}
use croupier.Wager.{Transaction}
use croupier.App.Env.{Env}
use croupier.App.Movement.{SubmitInput, SubmitResult}
use croupier.App.Submit.{submit}
use croupier.App.Queries.{get_transaction, get_transaction_by_provider}
use croupier.Http.{
  WagerTransactionResponse, SubmitResponse, SubmitRequest, Request, Web, Handler, write_json,
  handling, message, transaction_body, submission_body,
}
use croupier.Http.Failures.{write_error}
use croupier.Http.Wallets.{with_uuid}

-- `newWagerTransactionResponse`
unfoldable pub new_wager_transaction_response : Web → Transaction → WagerTransactionResponse
new_wager_transaction_response web tx = record {
  id = tx.id;
  status = tx.status;
  kind = tx.kind;
  provider_id = tx.provider_id;
  external_transaction_id = tx.external_transaction_id;
  player_id = tx.player_id;
  wallet_id = tx.wallet_id;
  round_id = tx.round_id;
  game_id = tx.game_id;
  money = tx.amount;
  reference_external_transaction_id = tx.reference_external_transaction_id;
  reference_transaction_id = tx.reference_transaction_id;
  failure_code = tx.failure_code;
  created_at = web.format_time tx.created_at;
  updated_at = web.format_time tx.updated_at;
}

abbrev pub new_submit_response : SubmitResult → SubmitResponse
new_submit_response result = record {
  transaction_id = result.transaction.id;
  status = result.transaction.status;
  balance = result.balance;
  idempotent_replay = result.idempotent_replay;
  failure_code = result.transaction.failure_code;
}

-- `unicode.IsSpace`
abbrev is_space : ℕ → Bool
is_space c =
    (leb 9 c && leb c 13)
    || c == 32
    || c == 133
    || c == 160
    || c == 5760
    || (leb 8192 c && leb c 8202)
    || c == 8232
    || c == 8233
    || c == 8239
    || c == 8287
    || c == 12288

-- `strings.TrimSpace(s) == ""`
unfoldable pub is_blank : String → Bool
is_blank empty = true
is_blank (char c s) = let rest = is_blank s in is_space (code c) && rest

abbrev pub lacks_key : String → String → Bool
lacks_key provider_id external_transaction_id =
    is_blank provider_id || is_blank external_transaction_id

-- the caller is another provider
abbrev pub is_stranger : Claims → String → Bool
is_stranger claims provider_id =
    not (has_role claims internal_service_role) && not (str_eq claims.provider_id provider_id)

unfoldable pub submit_input : Claims → SubmitRequest → String → SubmitInput
submit_input claims req correlation_id = record {
  transaction = record {
    provider_id = claims.provider_id;
    external_transaction_id = req.external_transaction_id;
    player_id = req.player_id;
    wallet_id = req.wallet_id;
    round_id = req.round_id;
    game_id = req.game_id;
    kind = req.kind;
    amount = req.money;
    reference_external_transaction_id = req.reference_external_transaction_id;
  };
  correlation_id = correlation_id;
}

-- `providerId:externalTransactionId`
abbrev pub key_of : Claims → SubmitRequest → String
key_of claims req = append (append claims.provider_id ":") req.external_transaction_id

module _ (env : Env) (web : Web) where
  unfoldable pub submit_decoded : Request → String → Claims → Result SubmitRequest → Handler
  submit_decoded r correlation_id claims (err e) = write_json 400 (message "malformed request body")
  submit_decoded r correlation_id claims (ok req) =
      if str_eq r.idempotency_key ""
      then write_json 400 (message "Idempotency-Key header is required")
      else if not (str_eq r.idempotency_key (key_of claims req))
      then write_json 400
          (message "Idempotency-Key does not match providerId:externalTransactionId")
      else handling (submit env (submit_input claims req correlation_id)) write_error
          λ result. write_json 200 (submission_body (new_submit_response result))

  -- `submitWagerTransaction`
  unfoldable pub submit_wager_transaction : Request → String → Claims → Handler
  unfolding submit_decoded
  submit_wager_transaction r correlation_id claims =
      submit_decoded r correlation_id claims (web.decode_submit r.content)

  -- `getWagerTransaction`
  unfoldable pub get_wager_transaction : String → Handler
  get_wager_transaction path_id = with_uuid "invalid transactionId" (web.parse_uuid path_id) λ id.
      handling (get_transaction env id) write_error
        λ tx. write_json 200 (transaction_body (new_wager_transaction_response web tx))

  -- `getWagerTransactionByProvider`
  unfoldable pub get_wager_transaction_by_provider : String → String → Claims → Handler
  get_wager_transaction_by_provider provider_id external_transaction_id claims =
      if lacks_key provider_id external_transaction_id
      then write_json 400 (message "providerId and externalTransactionId are required")
      else if is_stranger claims provider_id
      then write_json 403 (message "cannot access another provider's transactions")
      else handling (get_transaction_by_provider env provider_id external_transaction_id)
          write_error
          λ tx. write_json 200 (transaction_body (new_wager_transaction_response web tx))
