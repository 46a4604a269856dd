-- ===== src/Http/Guards.antt =====
-- internal/httpapi/auth.go: the tests of a request's token in front of a handler.
use croupier.Prelude.{String, Bool, not, ◌||◌, str_eq, if◌then◌else◌}
use Prim.Native.String.{len, slice}
use text.Mathlib.Text.{starts_with}
use croupier.Errors.{Result, ok, err}
use croupier.Auth.{Claims, verify, has_role, internal_service_role}
use croupier.Http.{Request, Handler, Web, write_json, message}

abbrev bearer : String
bearer = "Bearer "

-- what `strings.CutPrefix` leaves behind the prefix
abbrev pub bearer_token : String → String
bearer_token header = slice header (len bearer) (len header)

abbrev pub with_claims : Result Claims → (Claims → Handler) → Handler
with_claims (err e) next = write_json 401 (message "invalid or expired token")
with_claims (ok claims) next = next claims

-- `!ok || token == ""`
abbrev pub lacks_token : String → Bool
lacks_token header = not (starts_with header bearer) || str_eq (bearer_token header) ""

-- `requireAuth`; the claims that it puts into the context are an argument of `next`
unfoldable pub require_auth : Web → Request → (Claims → Handler) → Handler
require_auth web r next =
    if lacks_token r.authorization
    then write_json 401 (message "missing bearer token")
    else with_claims (verify web.tokens (bearer_token r.authorization)) next

-- `requireInternalRole`
unfoldable pub require_internal_role : Web → Request → (Claims → Handler) → Handler
unfolding require_auth
require_internal_role web r next = require_auth web r λ claims.
    if not (has_role claims internal_service_role)
    then write_json 403 (message "internal-service role required")
    else next claims
