-- ===== src/Http/Server/Safety.antt =====
-- What a request cannot do: read routes change nothing, and a caller without the right leaves no trace.
use croupier.Prelude.{suc, String, ◌≡◌, refl, Bool, true, false, str_eq, if◌then◌else◌}
use croupier.Store.Tables.{Db}
use croupier.Store.Monad.{World, idle}
use croupier.App.Env.{Env}
use croupier.Auth.{Claims}
use croupier.Http.{
  Request, Route, Web, Handler, create_wallet, get_wallet, list_wallet_ledger, reconcile_wallet,
  submit_wager_transaction, get_wager_transaction, get_wager_transaction_by_provider, health_live,
  health_ready,
}
use croupier.Http.Guards.{require_internal_role}
use croupier.Http.Handles.{Handles, Answered, Handles-require_auth, Handles-require_internal_role}
use croupier.Http.Server.{route_handler, serve}
use croupier.Http.Server.Reads.{
  says, get_wallet-Handles, reconcile-Handles, list-Handles, get_transaction-Handles,
  by_provider-Handles, ready-Handles,
}

-- the routes but for the creation of a wallet and the submission of a transaction
abbrev pub is_read : Route → Bool
is_read create_wallet = false
is_read submit_wager_transaction = false
is_read _ = true

module _ (env : Env) (web : Web) where
  internal :
      {P : Db → Type 0} {h : Claims → Handler} (r : Request)
      → ((claims : Claims) → Handles P (h claims) (λ _. P))
      → Handles P (require_internal_role web r h) (λ _. P)
  internal r k = Handles-require_internal_role web r (λ s t _. says env web s _) _ k

  read-Handles :
      {P : Db → Type 0} (route : Route) (r : Request) (id : String)
      → is_read route ≡ true
      → Handles P (route_handler env web route r id) (λ _. P)
  unfolding route_handler
  read-Handles create_wallet r id h = absurd (cc)
  read-Handles submit_wager_transaction r id h = absurd (cc)
  read-Handles (get_wallet wallet_id) r id _ =
      internal r (λ _. get_wallet-Handles env web wallet_id)
  read-Handles (list_wallet_ledger wallet_id cursor limit) r id _ =
      internal r (λ _. list-Handles env web wallet_id cursor limit)
  read-Handles (reconcile_wallet wallet_id) r id _ =
      internal r (λ _. reconcile-Handles env web wallet_id)
  read-Handles (get_wager_transaction transaction_id) r id _ =
      internal r (λ _. get_transaction-Handles env web transaction_id)
  read-Handles (get_wager_transaction_by_provider provider_id external_id) r id _ =
      Handles-require_auth web r (λ s t _. says env web s _) _
        (λ claims _. by_provider-Handles env web provider_id external_id claims)
  read-Handles health_live r id _ = says env web 200 _
  read-Handles health_ready r id _ = ready-Handles env web web.ready

  read_at :
      (b : Bool) (r : Request) (w v : World)
      → is_read r.route ≡ true
      → w.session ≡ idle
      → v.session ≡ idle
      → v.db ≡ w.db
      → Answered
          (λ _ db. db ≡ w.db)
          (if b
            then route_handler env web r.route r (env.uuid_text (env.new_uuid w.uuids)) v
            else route_handler env web r.route r r.correlation_id w)
  read_at true r w v h i j same = (read-Handles {P = λ db. db ≡ w.db} r.route r _ h).at v j same
  read_at false r w v h i j same = (read-Handles {P = λ db. db ≡ w.db} r.route r _ h).at w i refl

  -- Outside a transaction, a request to any route but the creation of a wallet and the submission of a
  -- transaction leaves the tables as they were and no transaction open, whatever database calls fail.
  pub serve-Reads :
      (r : Request) (w : World)
      → is_read r.route ≡ true
      → w.session ≡ idle
      → ((serve env web r w).1.db ≡ w.db) × ((serve env web r w).1.session ≡ idle)
  unfolding serve
  serve-Reads r w h i =
      let (q, j) =
        read_at (str_eq r.correlation_id "") r w (record w { uuids = suc w.uuids }) h i i refl in
      (q, j)
