-- ===== src/Http/Server/Reads.antt =====
-- The routes that only read keep whatever holds of the tables.
use croupier.Prelude.{ℕ, String, str_eq, Option, none, some}
use croupier.Prelude.Int.{ℤ, pos, ltb_ℤ}
use croupier.Errors.{Error, Result, ok, err}
use croupier.Store.Tables.{Db}
use croupier.Store.Keeps.{Keeps, Keeps-pure, Keeps-query, Keeps-lift, Keeps-bind, Keeps-within_tx}
use croupier.Store.Wallets.{find_wallet}
use croupier.Store.Entries.{list_ledger_entries, all_ledger_entries}
use croupier.Store.Wagers.{find_wager, find_by_key}
use croupier.App.Env.{Env}
use croupier.App.Queries.{list_ledger, get_wallet, get_transaction, get_transaction_by_provider}
use croupier.App.Reconcile.{reconcile, reconcile_in_tx}
use croupier.Auth.{Claims}
use croupier.Http.{Body, Web, write_json}
use croupier.Http.Handles.{
  Handles, Handles-write_json, Handles-if, Handles-with_uuid, Handles-handling, Handles-write_error,
}
use croupier.Http.Wallets.{
  get_wallet_by_id, reconcile_wallet, list_from, with_limit, limited, with_cursor,
  list_wallet_ledger,
}
use croupier.Http.Wagering.{
  lacks_key, is_stranger, get_wager_transaction, get_wager_transaction_by_provider,
}
use croupier.Http.Failures.{write_error}
use croupier.Http.Server.{ready}

pub reconcile-Keeps : {P : Db → Type 0} (env : Env) (id : ℕ) → Keeps P (reconcile env id)
unfolding reconcile reconcile_in_tx find_wallet all_ledger_entries
reconcile-Keeps env id =
    Keeps-within_tx
      (Keeps-bind (Keeps-query _) λ w. Keeps-bind (Keeps-query _) λ entries.
        Keeps-bind (Keeps-lift _)
          λ calculated. Keeps-bind (Keeps-lift _) λ difference. Keeps-pure _).inside

-- what `P` holds of the tables holds of them behind any answer
module _ (env : Env) (web : Web) {P : Db → Type 0} where
  pub errors : (e : Error) → Handles P (write_error e) (λ _. P)
  errors e = Handles-write_error e (λ _ db _ p. p)

  pub says : (status : ℕ) (body : Body) → Handles P (write_json status body) (λ _. P)
  says status body = Handles-write_json status body (λ db p. p)

  pub get_wallet-Handles : (id : String) → Handles P (get_wallet_by_id env web id) (λ _. P)
  unfolding get_wallet_by_id get_wallet find_wallet
  get_wallet-Handles id =
      Handles-with_uuid _ _ (says _ _)
        λ wallet_id. Handles-handling (Keeps-query _) errors (λ got. says _ _)

  pub reconcile-Handles : (id : String) → Handles P (reconcile_wallet env web id) (λ _. P)
  unfolding reconcile_wallet
  reconcile-Handles id =
      Handles-with_uuid _ _ (says _ _)
        λ wallet_id. Handles-handling (reconcile-Keeps env wallet_id) errors (λ result. says _ _)

  list_from-Handles :
      (id : ℕ) (cursor : Option ℕ) (limit : ℤ)
      → Handles P (list_from env web id cursor limit) (λ _. P)
  unfolding list_from list_ledger list_ledger_entries
  list_from-Handles id cursor limit = Handles-handling (Keeps-query _) errors (λ entries. says _ _)

  with_limit-Handles :
      (id : ℕ) (cursor : Option ℕ) (r : Result ℤ)
      → Handles P (with_limit env web id cursor r) (λ _. P)
  unfolding with_limit
  with_limit-Handles id cursor (err e) = says _ _
  with_limit-Handles id cursor (ok parsed) =
      Handles-if (ltb_ℤ parsed (pos 0)) (λ _. says _ _) (λ _. list_from-Handles id cursor parsed)

  limited-Handles :
      (id : ℕ) (cursor : Option ℕ) (raw : String)
      → Handles P (limited env web id cursor raw) (λ _. P)
  unfolding limited
  limited-Handles id cursor raw =
      Handles-if (str_eq raw "") (λ _. list_from-Handles id cursor (pos 0))
        (λ _. with_limit-Handles id cursor (web.atoi raw))

  with_cursor-Handles :
      (id : ℕ) (limit : String) (r : Result ℕ) → Handles P (with_cursor env web id limit r) (λ _. P)
  unfolding with_cursor
  with_cursor-Handles id limit (err e) = says _ _
  with_cursor-Handles id limit (ok parsed) = limited-Handles id (some parsed) limit

  pub list-Handles :
      (id cursor limit : String) → Handles P (list_wallet_ledger env web id cursor limit) (λ _. P)
  unfolding list_wallet_ledger
  list-Handles id cursor limit = Handles-with_uuid _ _ (says _ _) λ wallet_id.
      Handles-if (str_eq cursor "") (λ _. limited-Handles wallet_id none limit)
        (λ _. with_cursor-Handles wallet_id limit (web.parse_uuid cursor))

  pub get_transaction-Handles :
      (id : String) → Handles P (get_wager_transaction env web id) (λ _. P)
  unfolding get_wager_transaction get_transaction find_wager
  get_transaction-Handles id =
      Handles-with_uuid _ _ (says _ _)
        λ tx_id. Handles-handling (Keeps-query _) errors (λ tx. says _ _)

  pub by_provider-Handles :
      (provider_id external_id : String) (claims : Claims)
      → Handles P
          (get_wager_transaction_by_provider env web provider_id external_id claims)
          (λ _. P)
  unfolding get_wager_transaction_by_provider get_transaction_by_provider find_by_key
  by_provider-Handles provider_id external_id claims =
      Handles-if (lacks_key provider_id external_id) (λ _. says _ _)
        λ _.
          Handles-if (is_stranger claims provider_id) (λ _. says _ _)
            λ _. Handles-handling (Keeps-query _) errors (λ tx. says _ _)

  pub ready-Handles : (o : Option (Result (Unit {0}))) → Handles P (ready o) (λ _. P)
  ready-Handles none = says _ _
  ready-Handles (some (ok _)) = says _ _
  ready-Handles (some (err e)) = says _ _
