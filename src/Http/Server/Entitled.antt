-- ===== src/Http/Server/Entitled.antt =====
-- A caller without the right to a route is refused, and leaves no trace.
use mathlib.Core.Path.{subst}
use croupier.Prelude.{
  not-false, suc, String, ◌≡◌, refl, Bool, true, false, not, str_eq, ◌⊎◌, inl, inr, if◌then◌else◌,
}
use croupier.Errors.{Result, ok, err}
use croupier.Store.Tables.{Db}
use croupier.Store.Monad.{World}
use croupier.App.Env.{Env}
use croupier.Auth.{Claims, has_role, internal_service_role}
use croupier.Http.{
  Request, Response, Route, Web, Handler, SubmitRequest, create_wallet, get_wallet,
  list_wallet_ledger, reconcile_wallet, submit_wager_transaction, get_wager_transaction,
  get_wager_transaction_by_provider, health_live, health_ready,
}
use croupier.Http.Guards.{lacks_token, with_claims, require_auth, require_internal_role}
use croupier.Http.Wagering.{submit_decoded, key_of, submit_wager_transaction as handle_submit}
use croupier.Http.Handles.{IsCaller}
use croupier.Http.Server.{route_handler, serve}

-- what a request to the route has to have
abbrev pub IsEntitled : Web → Route → Request → Type 0
IsEntitled web submit_wager_transaction r =
    (claims : Claims) × (req : SubmitRequest) × IsCaller web r claims
    × (web.decode_submit r.content ≡ ok req)
    × (str_eq r.idempotency_key (key_of claims req) ≡ true)
IsEntitled web (get_wager_transaction_by_provider provider_id external_id) r =
    (claims : Claims) × IsCaller web r claims
IsEntitled web health_live r = Unit
IsEntitled web health_ready r = Unit
IsEntitled web _ r =
    (claims : Claims) × IsCaller web r claims × (has_role claims internal_service_role ≡ true)

-- refused, and nothing has changed
abbrev pub IsRefused : Db → Response × World → Type 0
IsRefused before (response, w) =
    ((response.status ≡ 400) ⊎ (response.status ≡ 401) ⊎ (response.status ≡ 403)) × (w.db ≡ before)

module _ {Right : Type 0} (web : Web) (r : Request) (w : World) where
  -- a test that refuses, in front of a handler
  tested :
      (b : Bool) (refusal next : Handler)
      → IsRefused w.db (refusal w)
      → (b ≡ false → Right ⊎ IsRefused w.db (next w))
      → Right ⊎ IsRefused w.db ((if b then refusal else next) w)
  tested true refusal next h k = inr h
  tested false refusal next h k = k refl

  verified_at :
      (next : Claims → Handler) (v : Result Claims)
      → ((claims : Claims) → v ≡ ok claims → Right ⊎ IsRefused w.db (next claims w))
      → Right ⊎ IsRefused w.db (with_claims v next w)
  verified_at next (ok claims) h = h claims refl
  verified_at next (err e) h = inr (inr (inl refl), refl)

  behind_auth :
      (next : Claims → Handler)
      → ((claims : Claims) → IsCaller web r claims → Right ⊎ IsRefused w.db (next claims w))
      → Right ⊎ IsRefused w.db (require_auth web r next w)
  unfolding require_auth
  behind_auth next h =
      tested (lacks_token r.authorization) _ _ (inr (inl refl), refl)
        λ token.
          verified_at next _
            λ claims verified. h claims (record { token = token; verified = verified })

  behind_role :
      (next : Claims → Handler)
      → ((claims : Claims)
          → IsCaller web r claims
          → has_role claims internal_service_role ≡ true
          → Right)
      → Right ⊎ IsRefused w.db (require_internal_role web r next w)
  unfolding require_internal_role
  behind_role next h = behind_auth _ λ claims caller.
      tested (not (has_role claims internal_service_role)) _ _ (inr (inr refl), refl)
        λ has. inl (h claims caller (not-false _ has))

  behind_key :
      (env : Env) (id : String) (claims : Claims) (decoded : Result SubmitRequest)
      → ((req : SubmitRequest)
          → decoded ≡ ok req
          → str_eq r.idempotency_key (key_of claims req) ≡ true
          → Right)
      → Right ⊎ IsRefused w.db (submit_decoded env web r id claims decoded w)
  unfolding submit_decoded
  behind_key env id claims (err e) h = inr (inl refl, refl)
  behind_key env id claims (ok req) h =
      tested (str_eq r.idempotency_key "") _ _ (inl refl, refl)
        λ _.
          tested (not (str_eq r.idempotency_key (key_of claims req))) _ _ (inl refl, refl)
            λ same. inl (h req refl (not-false _ same))

module _ (env : Env) (web : Web) where
  route_cases :
      (route : Route) (r : Request) (id : String) (w : World)
      → IsEntitled web route r ⊎ IsRefused w.db (route_handler env web route r id w)
  unfolding route_handler handle_submit
  route_cases create_wallet r id w =
      behind_role web r w _ λ claims caller has. (claims, caller, has)
  route_cases (get_wallet wallet_id) r id w =
      behind_role web r w _ λ claims caller has. (claims, caller, has)
  route_cases (list_wallet_ledger wallet_id cursor limit) r id w =
      behind_role web r w _ λ claims caller has. (claims, caller, has)
  route_cases (reconcile_wallet wallet_id) r id w =
      behind_role web r w _ λ claims caller has. (claims, caller, has)
  route_cases (get_wager_transaction transaction_id) r id w =
      behind_role web r w _ λ claims caller has. (claims, caller, has)
  route_cases submit_wager_transaction r id w = behind_auth web r w _ λ claims caller.
      behind_key web r w env id claims (web.decode_submit r.content)
        (λ req decoded key. (claims, req, caller, decoded, key))
  route_cases (get_wager_transaction_by_provider provider_id external_id) r id w =
      behind_auth web r w _ λ claims caller. inl (claims, caller)
  route_cases health_live r id w = inl tt
  route_cases health_ready r id w = inl tt

  serve_cases :
      (b : Bool) (r : Request) (w v : World)
      → v.db ≡ w.db
      → IsEntitled web r.route r
        ⊎ IsRefused w.db (
            (if b
              then route_handler env web r.route r (env.uuid_text (env.new_uuid w.uuids)) v
              else route_handler env web r.route r r.correlation_id w))
  serve_cases true r w v same =
      subst
        (λ d.
          IsEntitled web r.route r
          ⊎ IsRefused d (route_handler env web r.route r (env.uuid_text (env.new_uuid w.uuids)) v))
        same (route_cases r.route r _ v)
  serve_cases false r w v same = route_cases r.route r _ w

  -- In any world and for any request: either the caller has what the route asks for (on the wallet routes
  -- and the lookup by id an accepted token with the internal-service role, on a submission an accepted
  -- token, a body that decodes and an Idempotency-Key that is the provider of the token, a colon and the
  -- external id of the body, on the lookup by provider an accepted token, and nothing on the health
  -- routes), or the answer is 400, 401 or 403 and the tables are what they were.
  pub serve-IsEntitled :
      (r : Request) (w : World) → IsEntitled web r.route r ⊎ IsRefused w.db (serve env web r w)
  unfolding serve
  serve-IsEntitled r w =
      serve_cases (str_eq r.correlation_id "") r w (record w { uuids = suc w.uuids }) refl
