-- ===== src/Gateway/Auth/Paths.antt =====
-- services/api-gateway/internal/middleware/auth.go: which requests come through without a token.
use goshield.Prelude.{
  ap₂, Bool-cases, inl, inr, ◌⊎◌, String, ℕ, ◌≡◌, ◌≢◌, refl, Bool, true, false, Option, none, some,
  List, [], ◌∷◌, ◌++◌, eqb, arith, if◌then◌else◌,
}
use goshield.Go.Text.{codes, codes_eq}
use goshield.Gateway.Auth.{
  unauthorized, checked, has_prefix, drop_prefix, trim_prefix, bearer, is_public, open_to_all,
  identified, validate, jwt_auth,
}

-- A path that goes on behind a prefix has the longer prefix only if it goes on in the same way.
has_prefix-longer : (p s : List ℕ) (c d : ℕ) → has_prefix (p ++ c ∷ s) (p ++ d ∷ []) ≡ eqb c d
unfolding has_prefix
has_prefix-longer [] s c d = ground arith
has_prefix-longer (x ∷ p) s c d = ground (arith, has_prefix-longer p s c d)

codes_eq-longer : (p s : List ℕ) (c : ℕ) → codes_eq (p ++ c ∷ s) p ≡ false
codes_eq-longer [] s c = refl
codes_eq-longer (x ∷ p) s c = ground (arith, codes_eq-longer p s c)

-- A public path opens no path that goes on behind it with another character than a slash: the
-- path /auth/v1/oauth does not open /auth/v1/oauth-admin.
pub is_public-sibling :
    (p s : List ℕ) (c : ℕ) → eqb c b'/' ≡ false → is_public (p ∷ []) (p ++ c ∷ s) ≡ false
unfolding is_public
is_public-sibling p s c other = ground (arith, codes_eq-longer p s c, has_prefix-longer p s c b'/')

-- It opens itself, and all paths below it.
pub is_public-below :
    (p s : List ℕ) (ps : List (List ℕ)) → is_public (p ∷ ps) (p ++ b'/' ∷ s) ≡ true
unfolding is_public
is_public-below p s ps = ground (arith, codes_eq-longer p s b'/', has_prefix-longer p s b'/' b'/')

-- The text behind a prefix that is there.
drop_prefix-has : (s p : List ℕ) → has_prefix s p ≡ true → s ≡ p ++ drop_prefix p s
unfolding has_prefix
drop_prefix-has s [] h = refl
drop_prefix-has [] (c ∷ p) h = absurd (ground arith)
drop_prefix-has (d ∷ s) (c ∷ p) h =
    let rest : s ≡ p ++ drop_prefix p s = drop_prefix-has s p (ground arith) in
    let same : d ≡ c = ground arith in ap₂ ◌∷◌ same rest

codes_eq_refl : (s : List ℕ) → codes_eq s s ≡ true
codes_eq_refl [] = refl
codes_eq_refl (c ∷ s) = ground (arith, codes_eq_refl s)

-- A text that `TrimPrefix` changes has the prefix, and the rest is what it leaves.
trimmed : (s p : List ℕ) → codes_eq (trim_prefix s p) s ≡ false → s ≡ p ++ trim_prefix s p
unfolding trim_prefix
trimmed s p changed = elim (Bool-cases (has_prefix s p)) [
  | inl e ↦ rw e (drop_prefix-has s p e)
  | inr e ↦ absurd (no (rw e at changed))
]
  where
    no : codes_eq s s ≡ false → ⊥
    no h = let same = codes_eq_refl s in cc

-- A text is its trimmed rest, or the rest behind the prefix.
trim_cases : (s p : List ℕ) → (trim_prefix s p ≡ s) ⊎ (s ≡ p ++ trim_prefix s p)
unfolding trim_prefix
trim_cases s p = elim (Bool-cases (has_prefix s p)) [
  | inl e ↦ rw e (inr (drop_prefix-has s p e))
  | inr e ↦ rw e (inl refl)
]

module _ {C : Type 0} (parse : List ℕ → Option C) where
  identified_only :
      (public bare : Bool) (found : Option C) (claims : C)
      → (if public
          then open_to_all
          else if bare
          then unauthorized "Authorization header must use Bearer scheme"
          else checked parse found)
        ≡ identified claims
      → (public ≡ false) × (bare ≡ false) × (found ≡ some claims)
  unfolding checked
  identified_only true bare found claims h = absurd (ground arith)
  identified_only false true found claims h = absurd (ground arith)
  identified_only false false none claims h = absurd (ground arith)
  identified_only false false (some d) claims h = (refl, refl, ground arith)

  never_identified :
      (public : Bool) (claims : C) (why : String)
      → (if public then open_to_all else unauthorized why) ≢ identified claims
  never_identified true claims why h = ground arith
  never_identified false claims why h = ground arith

  -- A request that is passed on with claims is for a path that is not public, its header is `Bearer `
  -- and a text behind it, and the claims are what the parser makes of that text, less a second
  -- `Bearer ` in front of it if there is one.
  pub jwt_auth-passes :
      (public_paths : List (List ℕ)) (path raw : List ℕ) (claims : C)
      → jwt_auth parse public_paths path raw ≡ identified claims
      → (is_public public_paths path ≡ false)
        × (text : List ℕ) × (token : List ℕ) × (raw ≡ codes "Bearer " ++ text)
        × ((token ≡ text) ⊎ (text ≡ codes "Bearer " ++ token))
        × (parse token ≡ some claims)
  unfolding jwt_auth validate
  jwt_auth-passes public_paths path [] claims h =
      absurd
        (never_identified (is_public public_paths path) claims "missing Authorization header" h)
  jwt_auth-passes public_paths path (c ∷ raw) claims h =
      let text = trim_prefix (c ∷ raw) bearer in
      let found =
        identified_only (is_public public_paths path) (codes_eq text (c ∷ raw))
          (validate parse text) claims h in
      (
        found.0,
        text,
        trim_prefix text bearer,
        trimmed (c ∷ raw) bearer found.1,
        trim_cases text bearer,
        found.2,
      )
