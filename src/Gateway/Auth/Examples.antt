-- ===== src/Gateway/Auth/Examples.antt =====
-- The theorems on services/api-gateway/internal/middleware/auth.go at one public path.
use goshield.Prelude.{◌++◌, ◌⊎◌, ℕ, ◌≡◌, refl, true, false, Option, some, List, [], ◌∷◌}
use goshield.Go.Text.{codes}
use goshield.Gateway.Auth.{identified, is_public, jwt_auth}
use goshield.Gateway.Auth.Paths.{is_public-below, jwt_auth-passes}

abbrev oauth : List ℕ
oauth = codes "/auth/v1/oauth"

is_public-below_example : is_public (oauth ∷ []) (codes "/auth/v1/oauth/google") ≡ true
is_public-below_example = is_public-below oauth (codes "google") []

abbrev parse : List ℕ → Option (List ℕ)
parse token = some token

passed_on :
    jwt_auth parse (oauth ∷ []) (codes "/api/v1/claims") (codes "Bearer abc")
    ≡ identified (codes "abc")
unfolding jwt_auth
passed_on = refl

jwt_auth-passes_example :
    (is_public (oauth ∷ []) (codes "/api/v1/claims") ≡ false)
    × (text : List ℕ) × (token : List ℕ) × (codes "Bearer abc" ≡ codes "Bearer " ++ text)
    × ((token ≡ text) ⊎ (text ≡ codes "Bearer " ++ token))
    × (parse token ≡ some (codes "abc"))
jwt_auth-passes_example =
    jwt_auth-passes parse (oauth ∷ []) (codes "/api/v1/claims") (codes "Bearer abc") (codes "abc")
      passed_on
