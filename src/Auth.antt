-- ===== src/Auth.antt =====
-- internal/auth/verifier.go: the claims of a verified token.
use croupier.Prelude.{String, Bool, true, false, str_eq, List, [], ◌∷◌, if◌then◌else◌}
use croupier.Errors.{Error, Result, ok, err, invalid_token}

pub record Claims : Type 0 where
  pub provider_id : String
  pub roles : List String

abbrev pub internal_service_role : String
internal_service_role = "internal-service"

-- the loop of `HasRole`
unfoldable pub any_role : String → List String → Bool
any_role role [] = false
any_role role (r ∷ rs) = if str_eq r role then true else any_role role rs

abbrev pub has_role : Claims → String → Bool
has_role claims role = any_role role claims.roles

-- The check of a token's signature and expiry by go-oidc, which gives its payload, and the JSON of the
-- payload.
pub record IdTokens : Type 0 where
  pub verify_token : String → Result String
  pub decode_claims : String → Result Claims

abbrev invalid_token_if_failed {ℓ} : {A : Type ℓ} → Result A → Result A
invalid_token_if_failed (ok a) = ok a
invalid_token_if_failed (err e) = err (Error.auth invalid_token)

abbrev decoded_claims : IdTokens → Result String → Result Claims
decoded_claims tokens (ok payload) = invalid_token_if_failed (tokens.decode_claims payload)
decoded_claims tokens (err e) = err (Error.auth invalid_token)

-- `Verify`
unfoldable pub verify : IdTokens → String → Result Claims
verify tokens raw_token = decoded_claims tokens (tokens.verify_token raw_token)
