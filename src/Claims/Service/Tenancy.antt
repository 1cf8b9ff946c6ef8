-- ===== src/Claims/Service/Tenancy.antt =====
-- services/claim-service/internal/service/claim_service.go: which operations stay within the
-- caller's company, and which do not.
use goshield.Prelude.{
  ℕ, ◌≡◌, refl, ◌∙◌, sym, ◌≢◌, String, Bool, true, false, List, [], ◌∷◌, arith, select,
  select-update_where, select-delete_where, select-append_row, eq_iff, ◌==◌, eq_refl, find, some,
}
use goshield.Go.Errors.{ok}
use goshield.Go.Float.{Float64}
use goshield.Go.World.{Env, ◌>>=◌}
use goshield.Go.World.Steps.{Preorder}
use goshield.Claims.Domain.{Claim, CreateClaimInput}
use goshield.Claims.Repository.{Claims, has_id_in, get_by_id}
use goshield.Claims.Service.{
  Config, create_claim, upload_document, get_claim, delete_claim, new_claim,
}
use goshield.Claims.Service.Steps.{create_claim-Steps, upload_document-Steps, delete_claim-Steps}

-- The rows of one company.
abbrev pub rows_of : {F : Float64} → String → List (Claim F) → List (Claim F)
rows_of d = select (λ c. c.company_id == d)

-- Every other company has the same rows before and after.
abbrev pub SameElsewhere : {F : Float64} → String → List (Claim F) → List (Claim F) → Type 0
SameElsewhere company s t = (d : String) → company ≢ d → rows_of d s ≡ rows_of d t

pub SameElsewhere-Preorder :
    {F : Float64} (company : String) → Preorder (SameElsewhere {F = F} company)
SameElsewhere-Preorder company = record {
  same = λ s d ne. refl;
  chain = λ s t u p q d ne. p d ne ∙ q d ne;
}

not-in : (company c d : String) → (c == company) ≡ true → company ≢ d → (c == d) ≡ false
not-in company c d e ne = ground (arith, eq_iff c company, eq_iff c d)

has_id_in-company :
    {F : Float64} (i company : String) (c : Claim F)
    → has_id_in i company c ≡ true
    → (c.company_id == company) ≡ true
has_id_in-company i company c h = ground arith

module _ {F : Float64} (env : Env) (cfg : Config F) where
  -- Creating a claim of one company leaves the claims of the others as they are, also if it fails.
  pub create_claim-SameElsewhere :
      (input : CreateClaimInput F) (w : Claims F)
      → SameElsewhere input.company_id w.store (create_claim env cfg input w).1.store
  unfolding new_claim
  create_claim-SameElsewhere input w =
      (create_claim-Steps (SameElsewhere-Preorder input.company_id) env cfg input (λ i t s d ne.
          sym (
            select-append_row _ s _
              (not-in input.company_id input.company_id d (eq_refl input.company_id) ne)))).from
        w

  pub upload_document-SameElsewhere :
      (i company : String) (filename : List ℕ) (w : Claims F)
      → SameElsewhere company w.store (upload_document env cfg i company filename w).1.store
  upload_document-SameElsewhere i company filename w =
      (upload_document-Steps (SameElsewhere-Preorder company) env cfg i company filename
          (λ url t s d ne. sym (
            select-update_where _ (has_id_in i company) _ s (λ c h.
              let hidden = not-in company c.company_id d (has_id_in-company i company c h) ne in
              (hidden, hidden))))).from
        w

  pub delete_claim-SameElsewhere :
      (i company : String) (w : Claims F)
      → SameElsewhere company w.store (delete_claim env cfg i company w).1.store
  delete_claim-SameElsewhere i company w =
      (delete_claim-Steps (SameElsewhere-Preorder company) env cfg i company (λ s d ne. sym (
          select-delete_where _ (has_id_in i company) s
            (λ c h. not-in company c.company_id d (has_id_in-company i company c h) ne)))).from
        w

  find-passes :
      (p : Claim F → Bool) (s : List (Claim F)) (c : Claim F) → find p s ≡ some c → p c ≡ true
  find-passes p [] c e = cc
  find-passes p (x ∷ s) c e = ground (arith, find-passes p s c)

  -- What a caller reads has the id and the company that were asked for.
  pub get_claim_own :
      (i company : String) (w : Claims F) (c : Claim F)
      → (get_claim env cfg i company w).0 ≡ ok c
      → (c.id ≡ i) × (c.company_id ≡ company)
  unfolding get_claim get_by_id ◌>>=◌
  get_claim_own i company w c e = ground (
    arith,
    find-passes (has_id_in i company) w.store c,
    eq_iff c.id i,
    eq_iff c.company_id company,
  )
