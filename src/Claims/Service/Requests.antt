-- ===== src/Claims/Service/Requests.antt =====
-- services/claim-service/internal/service/claim_service.go: a history of the service is a list of
-- requests. What holds of the table from request to request, whichever calls fail.
use goshield.Prelude.{
  ℕ, ◌≡◌, refl, String, true, List, [], ◌∷◌, All, All-append, All-update_where, All-delete_where,
  Bool-cases, inl, inr,
}
use goshield.Go.Float.{Float64, zero_float}
use goshield.Go.World.{Env}
use goshield.Go.World.Steps.{Preorder}
use goshield.Events.Payload.{ClaimAnalyzedPayload}
use goshield.Claims.Domain.{
  Claim, ClaimStatus, pending, processing, flagged, approved, rejected, more_info, other,
  CreateClaimInput, ReviewInput,
}
use goshield.Claims.Repository.{Claims, has_id, has_id_in, analysis_status}
use goshield.Claims.Service.{
  Config, create_claim, upload_document, get_claim, review_claim, handle_analysis_result,
  delete_claim, is_review_status, new_claim,
}
use goshield.Claims.Service.Steps.{
  create_claim-Steps, upload_document-Steps, get_claim-Steps, review_claim-Steps,
  handle_analysis_result-Steps, delete_claim-Steps,
}
use goshield.Claims.Service.Tenancy.{
  SameElsewhere, SameElsewhere-Preorder, create_claim-SameElsewhere, upload_document-SameElsewhere,
  delete_claim-SameElsewhere,
}

-- A call of one of the service's methods, with its arguments.
pub data Request (F : Float64) : Type 0 where
  creates : CreateClaimInput F → Request F
  uploads : String → String → List ℕ → Request F
  gets : String → String → Request F
  reviews : ReviewInput → Request F
  analyses : ClaimAnalyzedPayload F → Request F
  deletes : String → String → Request F

module _ {F : Float64} (env : Env) (cfg : Config F) where
  -- The world after a request, whether it returned or failed.
  pub serve : Request F → Claims F → Claims F
  serve (creates input) w = (create_claim env cfg input w).1
  serve (uploads i company filename) w = (upload_document env cfg i company filename w).1
  serve (gets i company) w = (get_claim env cfg i company w).1
  serve (reviews input) w = (review_claim env cfg input w).1
  serve (analyses p) w = (handle_analysis_result env cfg p w).1
  serve (deletes i company) w = (delete_claim env cfg i company w).1

  pub serve_all : List (Request F) → Claims F → Claims F
  serve_all [] w = w
  serve_all (r ∷ rs) w = serve_all rs (serve r w)

-- What the status of a row says of its score and its analyst.
abbrev pub StatusFits : (F : Float64) → ClaimStatus → F.Num → String → Type 0
StatusFits F pending score analyst = (score ≡ zero_float F) × (analyst ≡ "")
StatusFits F flagged score analyst = F.ge score (F.decimal 80 2) ≡ true
StatusFits F approved score analyst = Unit {0}
StatusFits F rejected score analyst = Unit {0}
StatusFits F more_info score analyst = Unit {0}
StatusFits F processing score analyst = ⊥
StatusFits F (other s) score analyst = ⊥

-- A pending claim has no score and no analyst, a flagged one has a score of at least 0.80, and no
-- claim is processing or has a status without a name.
abbrev pub IsConsistent : {F : Float64} → Claim F → Type 0
IsConsistent {F} c = StatusFits F c.status c.fraud_score c.analyst_id

abbrev Keeps : {F : Float64} → List (Claim F) → List (Claim F) → Type 0
Keeps s t = All IsConsistent s → All IsConsistent t

Keeps-Preorder : {F : Float64} → Preorder (Keeps {F = F})
Keeps-Preorder = record { same = λ s h. h; chain = λ s t u p q h. q (p h) }

analysis_status-fits :
    (F : Float64) (score : F.Num) (analyst : String)
    → StatusFits F (analysis_status F score) score analyst
unfolding analysis_status
analysis_status-fits F score analyst = elim (Bool-cases (F.ge score (F.decimal 80 2))) [
  | inl e ↦ rw e e
  | inr e ↦ rw e tt
]

review-fits :
    (F : Float64) (s : ClaimStatus) (score : F.Num) (analyst : String)
    → is_review_status s ≡ true
    → StatusFits F s score analyst
unfolding is_review_status
review-fits F approved score analyst e = tt
review-fits F rejected score analyst e = tt
review-fits F more_info score analyst e = tt
review-fits F pending score analyst e = cc
review-fits F processing score analyst e = cc
review-fits F flagged score analyst e = cc
review-fits F (other s) score analyst e = cc

module _ {F : Float64} (env : Env) (cfg : Config F) where
  serve-Keeps : (r : Request F) (w : Claims F) → Keeps w.store (serve env cfg r w).store
  unfolding serve new_claim
  serve-Keeps (creates input) w =
      (create_claim-Steps Keeps-Preorder env cfg input
          (λ i t s h. All-append IsConsistent s _ h ((refl, refl), tt))).from
        w
  serve-Keeps (uploads i company filename) w =
      (upload_document-Steps Keeps-Preorder env cfg i company filename (λ url t s h.
          All-update_where IsConsistent (has_id_in i company) _ s (λ c e k. k) h)).from
        w
  serve-Keeps (gets i company) w = (get_claim-Steps Keeps-Preorder env cfg i company).from w
  serve-Keeps (reviews input) w =
      (review_claim-Steps Keeps-Preorder env cfg input (λ ok company t s h.
          All-update_where IsConsistent (has_id_in input.claim_id company) _ s
            (λ c e k. review-fits F input.status c.fraud_score input.analyst_id ok) h)).from
        w
  serve-Keeps (analyses p) w =
      (handle_analysis_result-Steps Keeps-Preorder env cfg p (λ t s h.
          All-update_where IsConsistent (has_id p.claim_id) _ s
            (λ c e k. analysis_status-fits F p.fraud_score c.analyst_id) h)).from
        w
  serve-Keeps (deletes i company) w =
      (delete_claim-Steps Keeps-Preorder env cfg i company
          (λ s h. All-delete_where IsConsistent (has_id_in i company) s h)).from
        w

  -- After any list of requests, whichever of their calls fail, every row of the table is
  -- consistent if every row was.
  pub serve_all-IsConsistent :
      (rs : List (Request F)) (w : Claims F)
      → All IsConsistent w.store
      → All IsConsistent (serve_all env cfg rs w).store
  unfolding serve_all
  serve_all-IsConsistent [] w h = h
  serve_all-IsConsistent (r ∷ rs) w h =
      serve_all-IsConsistent rs (serve env cfg r w) (serve-Keeps r w h)

-- The company that a request is confined to; reviews and analyses name none.
pub data Confined {F : Float64} : Request F → String → Type 0 where
  creating : (input : CreateClaimInput F) → Confined (creates input) input.company_id
  uploading :
      (i company : String) (filename : List ℕ) → Confined (uploads i company filename) company
  getting : (i company : String) → Confined (gets i company) company
  deleting : (i company : String) → Confined (deletes i company) company

module _ {F : Float64} (env : Env) (cfg : Config F) where
  -- A create, upload, get or delete by one company leaves the rows of every other company as they
  -- are, whether it succeeds or fails.
  pub serve-SameElsewhere :
      (r : Request F) (company : String) (w : Claims F)
      → Confined r company
      → SameElsewhere company w.store (serve env cfg r w).store
  unfolding serve
  serve-SameElsewhere r company w (creating input) = create_claim-SameElsewhere env cfg input w
  serve-SameElsewhere r company w (uploading i c filename) =
      upload_document-SameElsewhere env cfg i c filename w
  serve-SameElsewhere r company w (getting i c) =
      (get_claim-Steps (SameElsewhere-Preorder c) env cfg i c).from w
  serve-SameElsewhere r company w (deleting i c) = delete_claim-SameElsewhere env cfg i c w
