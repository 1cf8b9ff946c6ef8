-- ===== src/Gateway/Auth.antt =====
-- services/api-gateway/internal/middleware/auth.go and the validation of pkg/middleware/auth.go, on
-- text as code points. The parser of tokens is a parameter.
pub mod Paths
mod Examples
use goshield.Prelude.{
  ℕ, Bool, true, false, ◌&&◌, ◌||◌, Option, none, some, List, [], ◌∷◌, ◌++◌, eqb, any,
  if◌then◌else◌, String,
}
use goshield.Go.Text.{codes, codes_eq}

-- `strings.HasPrefix`
unfoldable pub has_prefix : List ℕ → List ℕ → Bool
has_prefix s [] = true
has_prefix [] (c ∷ p) = false
has_prefix (d ∷ s) (c ∷ p) = eqb d c && has_prefix s p

abbrev drop_prefix : List ℕ → List ℕ → List ℕ
drop_prefix [] s = s
drop_prefix (c ∷ p) [] = []
drop_prefix (c ∷ p) (d ∷ s) = drop_prefix p s

-- `strings.TrimPrefix`
pub trim_prefix : List ℕ → List ℕ → List ℕ
unfolding has_prefix
trim_prefix s p = if has_prefix s p then drop_prefix p s else s

abbrev pub bearer : List ℕ
bearer = codes "Bearer "

-- A public path, or a path below one.
pub is_public : List (List ℕ) → List ℕ → Bool
unfolding has_prefix
is_public public_paths path =
    any (codes_eq path) public_paths || any (λ p. has_prefix path (p ++ b'/' ∷ [])) public_paths

-- What becomes of a request: it is passed on, with the claims of its token if it has one, or it is
-- answered by 401.
pub data Passage (C : Type 0) : Type 0 where
  open_to_all : Passage C
  identified : C → Passage C
  unauthorized : String → Passage C

module _ {C : Type 0} (parse : List ℕ → Option C) where
  -- `JWTManager.Validate`
  pub validate : List ℕ → Option C
  unfolding trim_prefix
  validate token = parse (trim_prefix token bearer)

  checked : Option C → Passage C
  checked none = unauthorized "invalid or expired token"
  checked (some claims) = identified claims

  -- The header `Authorization` is empty if it is missing.
  pub jwt_auth : List (List ℕ) → List ℕ → List ℕ → Passage C
  unfolding is_public validate checked
  jwt_auth public_paths path [] =
      if is_public public_paths path
      then open_to_all
      else unauthorized "missing Authorization header"
  jwt_auth public_paths path (c ∷ raw) =
      if is_public public_paths path
      then open_to_all
      else if codes_eq (trim_prefix (c ∷ raw) bearer) (c ∷ raw)
      then unauthorized "Authorization header must use Bearer scheme"
      else checked (validate (trim_prefix (c ∷ raw) bearer))
