-- ===== src/Http/Server/Live.antt =====
-- internal/httpapi: the request for a bet or a win that nothing stands against is answered with 200.
use croupier.Prelude.{
  suc, ◌≡◌, refl, true, false, Bool-cases, inl, inr, [], String, str_eq, if◌then◌else◌,
}
use croupier.Errors.{Result, ok, err}
use croupier.Auth.{Claims, verify}
use croupier.Store.Tables.{WalletRow}
use croupier.Store.Monad.{World, idle}
use croupier.App.Env.{Env}
use croupier.App.Movement.{SubmitInput, SubmitResult}
use croupier.App.Movement.Lands.{Works}
use croupier.App.Submit.{submit}
use croupier.App.Submit.Offers.{IsOffered}
use croupier.App.Submit.Plays.{Affords}
use croupier.App.Submit.Live.{IsLanded, Lands, submit-Lands}
use croupier.Http.{
  Request, Response, Web, SubmitRequest, submit_wager_transaction, submission_body, handling,
  continue_with, write_json,
}
use croupier.Http.Failures.{write_error}
use croupier.Http.Guards.{require_auth, bearer_token, lacks_token}
use croupier.Http.Wagering.{
  submit_wager_transaction as handle_submit, submit_input, key_of, new_submit_response,
}
use croupier.Http.Server.{serve, route_handler}

-- the correlation id of a request, and the world behind its choice
abbrev pub received : Env → Request → World → String × World
received env r w =
    if str_eq r.correlation_id ""
    then (env.uuid_text (env.new_uuid w.uuids), record w { uuids = suc w.uuids })
    else (r.correlation_id, w)

-- the answer of a processed submission, which has landed
abbrev pub Accepts : Env → SubmitInput → WalletRow → World → Response × World → Type 0
Accepts env input row w (response, w') =
    (result : SubmitResult) × (response
      ≡ record { status = 200; body = submission_body (new_submit_response result) })
    × IsLanded env input row w result w'

-- `handling` a call that has landed
handles :
    (env : Env) (input : SubmitInput) (row : WalletRow) (w : World)
    (outcome : Result SubmitResult × World)
    → Lands env input row w outcome
    → Accepts env input row w (
        continue_with write_error
          (λ result. write_json 200 (submission_body (new_submit_response result)))
          outcome.0
          outcome.1)
handles env input row w (ok result, w') h = (result, refl, h)
handles env input row w (err e, w') h = absurd h

module _ (env : Env) (works : Works env) (web : Web) (r : Request) (claims : Claims)
    (req : SubmitRequest) (row : WalletRow) (w : World) (i : w.session ≡ idle)
    (no_faults : w.faults ≡ []) (route : r.route ≡ submit_wager_transaction)
    (bears : lacks_token r.authorization ≡ false)
    (verified : verify web.tokens (bearer_token r.authorization) ≡ ok claims)
    (decoded : web.decode_submit r.content ≡ ok req) (keyed : str_eq r.idempotency_key "" ≡ false)
    (matches : str_eq r.idempotency_key (key_of claims req) ≡ true) where
  answers :
      (id : String) (v : World)
      → Lands env (submit_input claims req id) row v (submit env (submit_input claims req id) v)
      → Accepts env (submit_input claims req id) row v (route_handler env web r.route r id v)
  unfolding route_handler require_auth handling handle_submit submit_input
  answers id v h =
      rw (route, bears, verified, decoded, keyed, matches)
        (handles env (submit_input claims req id) row v (submit env (submit_input claims req id) v)
          h)

  routed :
      (P : Response × World → Type 0)
      → P (route_handler env web r.route r (received env r w).0 (received env r w).1)
      → P (serve env web r w)
  unfolding serve
  routed P h = elim (Bool-cases (str_eq r.correlation_id "")) [
    | inl e ↦ rw e (rw e at h)
    | inr e ↦ rw e (rw e at h)
  ]

  -- The choice of a correlation id touches neither the tables nor what is to come.
  untouched : ((received env r w).1.session ≡ idle) × ((received env r w).1.faults ≡ [])
  untouched = elim (Bool-cases (str_eq r.correlation_id "")) [
    | inl e ↦ rw e (i, no_faults)
    | inr e ↦ rw e (i, no_faults)
  ]

  module _
      (offered : IsOffered env
        (submit_input claims req (received env r w).0)
        row
        (received env r w).1.db
        (received env r w).1.uuids)
      (affords : Affords req.kind row.balance req.money.amount) where
    -- Where no database call fails, a request for a bet or a win that bears an accepted token, an
    -- Idempotency-Key that is the one of its body, and a body against which nothing stands, on a wallet
    -- that affords it, is answered with 200 and the result of a submission that has landed: processed
    -- for the first time, exactly the amount moved, and everything recorded.
    pub serve-Lands :
        Accepts env
          (submit_input claims req (received env r w).0)
          row
          (received env r w).1
          (serve env web r w)
    unfolding submit_input
    serve-Lands =
        routed (Accepts env (submit_input claims req (received env r w).0) row (received env r w).1)
          (answers (received env r w).0 (received env r w).1 (
            submit-Lands env works (submit_input claims req (received env r w).0) row
              (received env r w).1 untouched.0 untouched.1 offered affords))
