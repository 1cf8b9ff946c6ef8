-- ===== src/Middleware.antt =====
-- pkg/middleware/auth.go: the middleware of a route that needs a token, and what it puts into the
-- request's context. The parser of tokens is a parameter.
use goshield.Prelude.{ℕ, String, Option, none, some, List, [], ◌∷◌}
use goshield.Gateway.Auth.{Passage, identified, unauthorized, validate}

-- What the token's claims put into the request's context.
pub record Identity : Type 0 where
  pub user_id : String
  pub company_id : String
  pub role : String

injected : Option Identity → Passage Identity
injected none = unauthorized "invalid or expired token"
injected (some who) = identified who

-- `JWTMiddleware`; the header `Authorization` is empty if it is missing.
unfoldable pub jwt_middleware : (List ℕ → Option Identity) → List ℕ → Passage Identity
unfolding injected
jwt_middleware parse [] = unauthorized "missing Authorization header"
jwt_middleware parse (c ∷ header) = injected (validate parse (c ∷ header))
