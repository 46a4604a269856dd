-- ===== src/Http/Handles.antt =====
-- Reasoning about handlers, one rule for each way to build one.
use mathlib.Core.Path.{subst}
use croupier.Prelude.{
  ℕ, String, ◌≡◌, refl, sym, not, ◌⊎◌, inl, inr, Bool, true, false, if◌then◌else◌,
}
use croupier.Errors.{Error, Result, ok, err}
use croupier.Values.{Uuid}
use croupier.Auth.{Claims, verify, has_role, internal_service_role}
use croupier.Store.Tables.{Db}
use croupier.Store.Monad.{World, App, idle}
use croupier.Store.Keeps.{Keeps}
use croupier.Store.Atomic.Undone.{OrUndone, Final}
use croupier.Http.{
  Response, Body, message, Request, Web, Handler, write_json, handling, continue_with,
}
use croupier.Http.Failures.{write_error, IsErrorResponse, write_error-IsErrorAnswer}
use croupier.Http.Guards.{
  bearer_token, lacks_token, with_claims, require_auth, require_internal_role,
}
use croupier.Http.Wallets.{with_uuid}

abbrev pub Answered : (Response → Db → Type 0) → Response × World → Type 0
Answered S (r, w) = S r w.db × (w.session ≡ idle)

-- Outside a transaction and from tables with `P`, the handler answers some `r` and leaves tables with
-- `S r`, and no transaction open.
pub record Handles (P : Db → Type 0) (h : Handler) (S : Response → Db → Type 0) : Type 0 where
  pub at : (w : World) → w.session ≡ idle → P w.db → Answered S (h w)

module _ {P : Db → Type 0} {S : Response → Db → Type 0} where
  pub Handles-write_json :
      (status : ℕ) (body : Body)
      → ((db : Db) → P db → S (record { status = status; body = body }) db)
      → Handles P (write_json status body) S
  Handles-write_json status body h = record { at = λ w i p. (h w.db p, i) }

  pub Handles-if :
      (b : Bool) {h k : Handler}
      → (b ≡ true → Handles P h S)
      → (b ≡ false → Handles P k S)
      → Handles P (if b then h else k) S
  Handles-if true hh hk = hh refl
  Handles-if false hh hk = hk refl

  -- It is enough to look at tables that hold the assertion.
  pub Handles-given : {h : Handler} → ((d : Db) → P d → Handles (λ db. db ≡ d) h S) → Handles P h S
  Handles-given {h} k = record { at = λ w i p. (k w.db p).at w i refl }

  pub Handles-with_uuid :
      (problem : String) (r : Result Uuid) {next : Uuid → Handler}
      → Handles P (write_json 400 (message problem)) S
      → ((id : Uuid) → Handles P (next id) S)
      → Handles P (with_uuid problem r next) S
  Handles-with_uuid problem (ok id) bad h = h id
  Handles-with_uuid problem (err e) bad h = bad

module _ {A : Type 0} {P : Db → Type 0} {S : Response → Db → Type 0} where
  kept_at :
      (failed : Error → Handler) (f : A → Handler)
      → ((e : Error) → Handles P (failed e) S)
      → ((a : A) → Handles P (f a) S)
      → (r : Result A) (w : World) → P w.db
      → w.session ≡ idle
      → Answered S (continue_with failed f r w)
  kept_at failed f hf ha (ok a) w p i = (ha a).at w i p
  kept_at failed f hf ha (err e) w p i = (hf e).at w i p

  pub Handles-handling :
      {m : App A} {failed : Error → Handler} {f : A → Handler}
      → Keeps P m
      → ((e : Error) → Handles P (failed e) S)
      → ((a : A) → Handles P (f a) S)
      → Handles P (handling m failed f) S
  unfolding handling
  Handles-handling {m} {failed} {f} k hf ha = record {
    at = λ w i p. let (r, w') = m w in let (q, j) = k.at w i p in kept_at failed f hf ha r w' q j;
  }

module _ {A : Type 0} {d : Db} {S : Response → Db → Type 0} where
  final_at :
      (Q : A → Db → Type 0) (failed : Error → Handler) (f : A → Handler)
      → ((e : Error) → Handles (λ db. db ≡ d) (failed e) S)
      → ((e : Error) (a : A) → Handles (Q a) (failed e) S)
      → ((a : A) → Handles (Q a) (f a) S)
      → (r : Result A) (w : World) → Final d Q (r, w)
      → Answered S (continue_with failed f r w)
  final_at Q failed f hf hl ha (ok a) w (q, i) = (ha a).at w i q
  final_at Q failed f hf hl ha (err e) w (inl same, i) = (hf e).at w i same
  final_at Q failed f hf hl ha (err e) w (inr (n, is, a, q), i) = (hl e a).at w i q

  pub Handles-handling_undone :
      {Q : A → Db → Type 0} {m : App A} {failed : Error → Handler} {f : A → Handler}
      → OrUndone d m Q
      → ((e : Error) → Handles (λ db. db ≡ d) (failed e) S)
      → ((e : Error) (a : A) → Handles (Q a) (failed e) S)
      → ((a : A) → Handles (Q a) (f a) S)
      → Handles (λ db. db ≡ d) (handling m failed f) S
  unfolding handling
  Handles-handling_undone {Q} {m} {failed} {f} k hf hl ha = record {
    at = λ w i s. let (r, w') = m w in final_at Q failed f hf hl ha r w' (k.at w i s);
  }

-- the caller's token is accepted, with these claims
pub record IsCaller (web : Web) (r : Request) (claims : Claims) : Type 0 where
  pub token : lacks_token r.authorization ≡ false
  pub verified : verify web.tokens (bearer_token r.authorization) ≡ ok claims

module _ {P : Db → Type 0} {S : Response → Db → Type 0} (web : Web) (r : Request)
    (refused : (status : ℕ) (text : String)
      → (status ≡ 401) ⊎ (status ≡ 403)
      → Handles P (write_json status (message text)) S) where
  with_claims_at :
      (v : Result Claims) (next : Claims → Handler)
      → ((claims : Claims) → v ≡ ok claims → Handles P (next claims) S)
      → Handles P (with_claims v next) S
  with_claims_at (ok claims) next h = h claims refl
  with_claims_at (err e) next h = refused 401 _ (inl refl)

  pub Handles-require_auth :
      (next : Claims → Handler)
      → ((claims : Claims) → IsCaller web r claims → Handles P (next claims) S)
      → Handles P (require_auth web r next) S
  unfolding require_auth
  Handles-require_auth next h =
      Handles-if (lacks_token r.authorization) (λ _. refused 401 _ (inl refl))
        (λ token.
          with_claims_at _ next
            (λ claims verified. h claims (record { token = token; verified = verified })))

  pub Handles-require_internal_role :
      (next : Claims → Handler)
      → ((claims : Claims) → Handles P (next claims) S)
      → Handles P (require_internal_role web r next) S
  unfolding require_internal_role
  Handles-require_internal_role next h = Handles-require_auth _ λ claims _.
      Handles-if (not (has_role claims internal_service_role)) (λ _. refused 403 _ (inr refl))
        (λ _. h claims)

-- The same of one world, for a handler that looks at more than the tables.
module _ (S : Response → Db → Type 0) (web : Web) (r : Request) (w : World)
    (refused : (status : ℕ) (text : String) → Answered S (write_json status (message text) w)) where
  either_at :
      (b : Bool) (h k : Handler)
      → Answered S (h w)
      → Answered S (k w)
      → Answered S ((if b then h else k) w)
  either_at true h k p q = p
  either_at false h k p q = q

  claimed_at :
      (v : Result Claims) (next : Claims → Handler)
      → ((claims : Claims) → Answered S (next claims w))
      → Answered S (with_claims v next w)
  claimed_at (ok claims) next h = h claims
  claimed_at (err e) next h = refused 401 _

  pub require_internal_role-Answered :
      (next : Claims → Handler)
      → ((claims : Claims) → Answered S (next claims w))
      → Answered S (require_internal_role web r next w)
  unfolding require_internal_role require_auth
  require_internal_role-Answered next h =
      either_at (lacks_token r.authorization) _ _ (refused 401 _) (
        claimed_at (verify web.tokens (bearer_token r.authorization)) _ (λ claims.
          either_at (not (has_role claims internal_service_role)) _ _ (refused 403 _) (h claims)))

-- An error answer changes nothing.
pub Handles-write_error :
    {P : Db → Type 0} {S : Response → Db → Type 0} (e : Error)
    → ((response : Response) (db : Db) → IsErrorResponse e response → P db → S response db)
    → Handles P (write_error e) S
Handles-write_error {P} {S} e h = record {
  at = λ w i p.
      let (is, same) = write_error-IsErrorAnswer e w in
      subst (λ v. S (write_error e w).0 v.db × (v.session ≡ idle)) (sym same) (h _ w.db is p, i);
}
