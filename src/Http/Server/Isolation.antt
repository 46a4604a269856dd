-- ===== src/Http/Server/Isolation.antt =====
-- The lookup by provider shows the transaction that it is asked for, to its provider or to the operator.
use mathlib.Core.Path.{subst}
use croupier.Prelude.{
  ℕ, suc, String, ◌≡◌, refl, sym, ◌∙◌, Bool, true, false, not, ◌&&◌, str_eq, eq_iff, ◌⊎◌, inl, inr,
  Option, none, some, find, find-holds, arith, Option-cases, Bool-cases, if◌then◌else◌,
}
use croupier.Errors.{Error, ok}
use croupier.Wager.{Transaction}
use croupier.Money.{from_minor_units}
use croupier.Store.Tables.{Db, WagerRow}
use croupier.Store.Monad.{World, idle}
use croupier.Store.Rules.{Ensures-query}
use croupier.Store.Keeps.{Keeps-query}
use croupier.Store.Atomic.Undone.{OrUndone-reads}
use croupier.Store.Wagers.{
  select_by_key, find_by_key, scan_wager, has_key, is_text, string_or_empty,
}
use croupier.App.Env.{Env}
use croupier.App.Queries.{get_transaction_by_provider}
use croupier.Auth.{Claims, has_role, internal_service_role}
use croupier.Http.{
  get_wager_transaction_by_provider, Request, Response, Body, Web, write_json, message, error_text,
  transaction_body,
}
use croupier.Http.Failures.{
  IsErrorResponse, ErrorClass, missing, conflict, invalid, unreachable, internal, class_of,
  status_of, body_of,
}
use croupier.Http.Handles.{
  IsCaller, Handles-require_auth, Handles, Answered, Handles-write_json, Handles-if,
  Handles-handling_undone, Handles-write_error,
}
use croupier.Http.Server.{route_handler, serve}
use croupier.Http.Wagering.{
  get_wager_transaction_by_provider as handle_get_by_provider, new_wager_transaction_response,
  lacks_key, is_stranger,
}

both_true : (a b : Bool) → a && b ≡ true → (a ≡ true) × (b ≡ true)
both_true true b h = (refl, h)
both_true false b h = absurd (cc)

text_of : (o : Option String) (s : String) → is_text o s ≡ true → string_or_empty o ≡ s
text_of none s h = absurd (cc)
text_of (some t) s h = (eq_iff t s).0 h

scanned_texts :
    (parse_iso : String → Bool) (r : WagerRow) (tx : Transaction)
    → scan_wager parse_iso r ≡ ok tx
    → (tx.provider_id ≡ string_or_empty r.provider_id)
      × (tx.external_transaction_id ≡ string_or_empty r.external_transaction_id)
unfolding scan_wager from_minor_units
scanned_texts parse_iso r tx h = ground arith

scanned_key :
    (parse_iso : String → Bool) (provider_id external_id : String) (r : WagerRow) (tx : Transaction)
    → has_key provider_id external_id r ≡ true
    → scan_wager parse_iso r ≡ ok tx
    → (tx.provider_id ≡ provider_id) × (tx.external_transaction_id ≡ external_id)
scanned_key parse_iso provider_id external_id r tx held scanned =
    let (provider, external) = scanned_texts parse_iso r tx scanned in
    let (p, e) = both_true (is_text r.provider_id provider_id) _ held in
    (provider ∙ text_of _ _ p, external ∙ text_of _ _ e)

select_by_key_lem :
    (parse_iso : String → Bool) (provider_id external_id : String) (db : Db) (tx : Transaction)
    → select_by_key parse_iso provider_id external_id db ≡ ok tx
    → (tx.provider_id ≡ provider_id) × (tx.external_transaction_id ≡ external_id)
select_by_key_lem parse_iso provider_id external_id db tx h =
    elim (Option-cases (find (has_key provider_id external_id) db.wagers)) [
      | inl e ↦ absurd (cc)
      | inr (r, e) ↦
          scanned_key parse_iso provider_id external_id r tx
            (find-holds (has_key provider_id external_id) db.wagers e) (ground arith)
    ]

-- what the response to a lookup may carry: the transaction with the key, or a text
abbrev pub Shows : String → String → Body → Type 0
Shows provider_id external_id (transaction_body t) =
    (t.provider_id ≡ provider_id) × (t.external_transaction_id ≡ external_id)
Shows provider_id external_id (message text) = Unit
Shows provider_id external_id (error_text e) = Unit
Shows provider_id external_id _ = ⊥

-- the operator, or the provider itself
abbrev pub MayRead : Claims → String → Type 0
MayRead claims provider_id =
    (has_role claims internal_service_role ≡ true) ⊎ (claims.provider_id ≡ provider_id)

may_read :
    (claims : Claims) (provider_id : String)
    → is_stranger claims provider_id ≡ false
    → MayRead claims provider_id
may_read claims provider_id h = elim (Bool-cases (has_role claims internal_service_role)) [
  | inl operator ↦ inl operator
  | inr other ↦ inr ((eq_iff claims.provider_id provider_id).0 (own _ _ other h))
]
  where
    own : (a b : Bool) → a ≡ false → not a && not b ≡ false → b ≡ true
    own a true e h = refl
    own true false e h = absurd (cc)
    own false false e h = absurd (cc)

module _ (env : Env) (web : Web) (r : Request) (provider_id external_id : String) where
  -- The response shows nothing but the transaction that was asked for, and a success only to a caller
  -- who may read it.
  abbrev pub IsIsolated : Response → Type 0
  IsIsolated response =
      Shows provider_id external_id response.body
      × ((response.status ≡ 200)
          → (claims : Claims) × IsCaller web r claims × MayRead claims provider_id)

  said :
      {P : Db → Type 0} (status : ℕ) (text : String)
      → ((status ≡ 200) → ⊥)
      → Handles P (write_json status (message text)) (λ response _. IsIsolated response)
  said status text never = Handles-write_json status _ (λ _ _. (tt, λ h. absurd (never h)))

  shut :
      (response : Response) (status : ℕ) (body : Body)
      → response.status ≡ status
      → response.body ≡ body
      → Shows provider_id external_id body
      → ((status ≡ 200) → ⊥)
      → IsIsolated response
  shut response status body s b shown never =
      (subst (Shows provider_id external_id) (sym b) shown, λ h. absurd (never (sym s ∙ h)))

  shown_of : (c : ErrorClass) (e : Error) → Shows provider_id external_id (body_of c e)
  shown_of missing e = tt
  shown_of conflict e = tt
  shown_of invalid e = tt
  shown_of unreachable e = tt
  shown_of internal e = tt

  never_ok : (c : ErrorClass) → status_of c ≡ 200 → ⊥
  never_ok missing h = omega arith
  never_ok conflict h = omega arith
  never_ok invalid h = omega arith
  never_ok unreachable h = omega arith
  never_ok internal h = omega arith

  failed : (e : Error) (response : Response) → IsErrorResponse e response → IsIsolated response
  failed e response (s, b) = shut response _ _ s b (shown_of (class_of e) e) (never_ok (class_of e))

  by_provider-IsIsolated :
      (d : Db) (claims : Claims)
      → IsCaller web r claims
      → Handles
          (λ db. db ≡ d)
          (handle_get_by_provider env web provider_id external_id claims)
          (λ response _. IsIsolated response)
  unfolding handle_get_by_provider get_transaction_by_provider find_by_key
      new_wager_transaction_response
  by_provider-IsIsolated d claims caller =
      Handles-if (lacks_key provider_id external_id) (λ _. said 400 _ (λ h. omega arith))
        λ _.
          Handles-if (is_stranger claims provider_id) (λ _. said 403 _ (λ h. omega arith))
            λ own.
              Handles-handling_undone
                {Q = λ tx db.
                  (tx.provider_id ≡ provider_id) × (tx.external_transaction_id ≡ external_id)}
                (OrUndone-reads _ (Keeps-query _) (
                  Ensures-query _
                    (λ tx db e _. select_by_key_lem _ provider_id external_id db tx e)))
                (λ e. Handles-write_error e (λ response _ is _. failed e response is))
                (λ e _. Handles-write_error e (λ response _ is _. failed e response is))
                (λ tx.
                  Handles-write_json 200 _
                    (λ _ shown. (shown, λ _. (claims, caller, may_read claims provider_id own))))

  unauthorized : (status : ℕ) → (status ≡ 401) ⊎ (status ≡ 403) → (status ≡ 200) → ⊥
  unauthorized status (inl s) h = omega arith
  unauthorized status (inr s) h = omega arith

  isolated_at :
      (id : String) (w : World)
      → w.session ≡ idle
      → Answered
          (λ response _. IsIsolated response)
          (route_handler env web (get_wager_transaction_by_provider provider_id external_id) r id w)
  unfolding route_handler
  isolated_at id w i =
      (Handles-require_auth web r (λ s t refused. said s t (unauthorized s refused)) _
          (λ claims caller. by_provider-IsIsolated w.db claims caller)).at
        w i refl

  serve_at :
      (b : Bool) (w v : World)
      → w.session ≡ idle
      → v.session ≡ idle
      → r.route ≡ get_wager_transaction_by_provider provider_id external_id
      → Answered
          (λ response _. IsIsolated response)
          (if b
            then route_handler env web r.route r (env.uuid_text (env.new_uuid w.uuids)) v
            else route_handler env web r.route r r.correlation_id w)
  serve_at true w v i j same =
      let id = env.uuid_text (env.new_uuid w.uuids) in
      subst (λ x. Answered (λ response _. IsIsolated response) (route_handler env web x r id v))
        (sym same) (isolated_at id v j)
  serve_at false w v i j same =
      subst
        (λ x.
          Answered (λ response _. IsIsolated response)
            (route_handler env web x r r.correlation_id w))
        (sym same) (isolated_at r.correlation_id w i)

-- The answer to a lookup by provider, outside a transaction, shows nothing but the transaction with the
-- provider and the external id of the path, or a text; and it has status 200 only where the token is
-- accepted and its claims have the internal-service role or are those of the provider of the path.
pub serve-IsIsolated :
    (env : Env) (web : Web) (r : Request) (provider_id external_id : String) (w : World)
    → r.route ≡ get_wager_transaction_by_provider provider_id external_id
    → w.session ≡ idle
    → IsIsolated env web r provider_id external_id (serve env web r w).0
unfolding serve
serve-IsIsolated env web r provider_id external_id w same i =
    (serve_at env web r provider_id external_id (str_eq r.correlation_id "") w
      (record w { uuids = suc w.uuids }) i i same).0
