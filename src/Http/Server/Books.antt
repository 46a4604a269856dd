-- ===== src/Http/Server/Books.antt =====
-- The server keeps the books, whatever is asked of it.
use mathlib.Core.Path.{subst}
use croupier.Prelude.{
  ℕ, String, ◌≡◌, refl, sym, suc, Bool, true, false, not, str_eq, none, ◌==◌, if◌then◌else◌, ◌≢◌,
  ◌≤◌, arith, Bool-cases, inl, inr,
}
use croupier.Wallet.{Wallet}
use croupier.Store.Atomic.Undone.{Final}
use croupier.Http.Failures.{write_error}
use croupier.Errors.{Error, Result, ok, err}
use croupier.Values.{nil_uuid}
use croupier.Store.Monad.{World, idle}
use croupier.Store.Wallets.{wallet_with_id}
use croupier.Store.Books.Writes.{On}
use croupier.App.Env.{Env}
use croupier.App.Create.Undone.{create-IsAtomic}
use croupier.App.Movement.Conservation.{Reconciled}
use croupier.App.Submit.Books.{submit-Keeps}
use croupier.Auth.{Claims}
use croupier.Http.{
  Request, Route, Web, Handler, create_wallet as create_route, get_wallet, list_wallet_ledger,
  reconcile_wallet, submit_wager_transaction as submit_route, get_wager_transaction,
  get_wager_transaction_by_provider, health_live, health_ready, Body, wallet_body, write_json,
  continue_with, handling, CreateWalletRequest, SubmitRequest,
}
use croupier.Http.Handles.{
  Handles, Answered, Handles-if, Handles-handling, require_internal_role-Answered,
  Handles-require_auth, Handles-require_internal_role,
}
use croupier.Http.Guards.{require_internal_role}
use croupier.Http.Wallets.{create_wallet, create_decoded, new_wallet_response}
use croupier.Http.Wagering.{submit_wager_transaction, submit_decoded, key_of}
use croupier.Http.Server.{route_handler, serve}
use croupier.Http.Server.Reads.{
  errors, says, get_wallet-Handles, reconcile-Handles, list-Handles, get_transaction-Handles,
  by_provider-Handles, ready-Handles,
}

module _ (env : Env) (web : Web) (r : Request) (id : String) where
  submit_decoded-Handles :
      (claims : Claims) (decoded : Result SubmitRequest)
      → Handles (On Reconciled) (submit_decoded env web r id claims decoded) (λ _. On Reconciled)
  unfolding submit_decoded
  submit_decoded-Handles claims (err e) = says env web 400 _
  submit_decoded-Handles claims (ok req) =
      Handles-if (str_eq r.idempotency_key "") (λ _. says env web 400 _)
        λ _.
          Handles-if (not (str_eq r.idempotency_key (key_of claims req))) (λ _. says env web 400 _)
            λ _.
              Handles-handling (submit-Keeps env _) (errors env web) (λ result. says env web 200 _)

  module _ (w : World) (i : w.session ≡ idle) (books : On Reconciled w.db)
      (free : wallet_with_id (env.new_uuid w.uuids) w.db.wallets ≡ none) where
    failed_at :
        (e : Error) (v : World)
        → On Reconciled v.db
        → v.session ≡ idle
        → Answered (λ _. On Reconciled) (write_error e v)
    failed_at e v q j = (errors env web {P = On Reconciled} e).at v j q

    answered_at :
        (f : Wallet → Body) (x : Result Wallet) (v : World)
        → Final w.db (λ _. On Reconciled) (x, v)
        → Answered
            (λ _. On Reconciled)
            (continue_with write_error (λ created. write_json 201 (f created)) x v)
    answered_at f (ok created) v (q, j) = (q, j)
    answered_at f (err e) v (inl same, j) = failed_at e v (subst (On Reconciled) (sym same) books) j
    answered_at f (err e) v (inr (n, is, made, q), j) = failed_at e v q j

    create_decoded-Answered :
        (decoded : Result CreateWalletRequest)
        → Answered (λ _. On Reconciled) (create_decoded env web r id decoded w)
    unfolding create_decoded handling
    create_decoded-Answered (err e) = (books, i)
    create_decoded-Answered (ok req) = elim (Bool-cases (req.player_id == nil_uuid)) [
      | inl e ↦ rw e (books, i)
      | inr e ↦ rw e (
          answered_at (λ created. wallet_body (new_wallet_response web created)) _ _
            (create-IsAtomic env _ w i books free))
    ]

module _ (env : Env) (web : Web) where
  internal :
      {h : Claims → Handler} (r : Request)
      → ((claims : Claims) → Handles (On Reconciled) (h claims) (λ _. On Reconciled))
      → Handles (On Reconciled) (require_internal_role web r h) (λ _. On Reconciled)
  internal r k = Handles-require_internal_role web r (λ s t _. says env web s _) _ k

  route-Handles :
      (route : Route) (r : Request) (id : String)
      → route ≢ create_route
      → Handles (On Reconciled) (route_handler env web route r id) (λ _. On Reconciled)
  unfolding route_handler submit_wager_transaction
  route-Handles submit_route r id n =
      (Handles-require_auth web r (λ s t _. says env web s _) _
        (λ claims _. submit_decoded-Handles env web r id claims (web.decode_submit r.content)))
  route-Handles (get_wallet wallet_id) r id n =
      (internal r (λ _. get_wallet-Handles env web wallet_id))
  route-Handles (list_wallet_ledger wallet_id cursor limit) r id n =
      (internal r (λ _. list-Handles env web wallet_id cursor limit))
  route-Handles (reconcile_wallet wallet_id) r id n =
      (internal r (λ _. reconcile-Handles env web wallet_id))
  route-Handles (get_wager_transaction transaction_id) r id n =
      (internal r (λ _. get_transaction-Handles env web transaction_id))
  route-Handles (get_wager_transaction_by_provider provider_id external_id) r id n =
      (Handles-require_auth web r (λ s t _. says env web s _) _
        (λ claims _. by_provider-Handles env web provider_id external_id claims))
  route-Handles health_live r id n = (says env web 200 _)
  route-Handles health_ready r id n = (ready-Handles env web web.ready)
  route-Handles create_route r id n = absurd (n refl)

  create-Answered :
      (r : Request) (id : String) (w : World)
      → w.session ≡ idle
      → On Reconciled w.db
      → wallet_with_id (env.new_uuid w.uuids) w.db.wallets ≡ none
      → Answered (λ _. On Reconciled) (route_handler env web create_route r id w)
  unfolding route_handler create_wallet
  create-Answered r id w i books free =
      require_internal_role-Answered (λ _. On Reconciled) web r w (λ s t. (books, i)) _
        (λ claims.
          create_decoded-Answered env web r id w i books free (web.decode_create r.content))

  -- no wallet has an id that is still to be drawn
  abbrev pub Free : World → Type 0
  Free w = (n : ℕ) → w.uuids ≤ n → wallet_with_id (env.new_uuid n) w.db.wallets ≡ none

  route_at :
      (route : Route) (r : Request) (id : String) (w : World)
      → w.session ≡ idle
      → On Reconciled w.db
      → (route ≡ create_route → Free w)
      → Answered (λ _. On Reconciled) (route_handler env web route r id w)
  route_at create_route r id w i books free =
      create-Answered r id w i books (free refl w.uuids (omega arith))
  route_at (get_wallet a) r id w i books free =
      (route-Handles (get_wallet a) r id (λ e. absurd (cc))).at w i books
  route_at (list_wallet_ledger a b c) r id w i books free =
      (route-Handles (list_wallet_ledger a b c) r id (λ e. absurd (cc))).at w i books
  route_at (reconcile_wallet a) r id w i books free =
      (route-Handles (reconcile_wallet a) r id (λ e. absurd (cc))).at w i books
  route_at submit_route r id w i books free =
      (route-Handles submit_route r id (λ e. absurd (cc))).at w i books
  route_at (get_wager_transaction a) r id w i books free =
      (route-Handles (get_wager_transaction a) r id (λ e. absurd (cc))).at w i books
  route_at (get_wager_transaction_by_provider a b) r id w i books free =
      (route-Handles (get_wager_transaction_by_provider a b) r id (λ e. absurd (cc))).at w i books
  route_at health_live r id w i books free =
      (route-Handles health_live r id (λ e. absurd (cc))).at w i books
  route_at health_ready r id w i books free =
      (route-Handles health_ready r id (λ e. absurd (cc))).at w i books

  serve_at :
      (b : Bool) (r : Request) (w : World)
      → w.session ≡ idle
      → On Reconciled w.db
      → (r.route ≡ create_route → Free w)
      → Answered
          (λ _. On Reconciled)
          (if b
            then route_handler env web r.route r
                (env.uuid_text (env.new_uuid w.uuids))
                (record w { uuids = suc w.uuids })
            else route_handler env web r.route r r.correlation_id w)
  serve_at true r w i p free =
      route_at r.route r _ (record w { uuids = suc w.uuids }) i p
        (λ e n h. free e n (omega (arith, h)))
  serve_at false r w i p free = route_at r.route r _ w i p free

  -- From right books, and for the creation of a wallet where no wallet has an id that is still to be
  -- drawn, every request, with any token, body and path and whatever database calls fail, leaves right
  -- books and no transaction open.
  pub serve-Reconciled :
      (r : Request) (w : World)
      → w.session ≡ idle
      → Reconciled w.db.wallets w.db.ledger
      → (r.route ≡ create_route → Free w)
      → let w' = (serve env web r w).1 in
        Reconciled w'.db.wallets w'.db.ledger × (w'.session ≡ idle)
  unfolding serve
  serve-Reconciled r w i p fresh =
      let (q, j) = serve_at (str_eq r.correlation_id "") r w i p fresh in (q, j)
