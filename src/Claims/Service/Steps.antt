-- ===== src/Claims/Service/Steps.antt =====
-- services/claim-service/internal/service/claim_service.go: how each operation moves the table,
-- whichever of its calls fail.
use goshield.Prelude.{
  ℕ, ◌≡◌, String, true, not, List, [], ◌∷◌, ◌++◌, Option, none, some, arith, update_where,
  delete_where,
}
use goshield.Go.Errors.{Result, ok, err}
use goshield.Go.Float.{Float64}
use goshield.Go.Text.{to_lower, ext}
use goshield.Go.World.{Env}
use goshield.Go.World.Steps.{
  Preorder, Steps, ≡-Preorder, steps_rules, Steps-pure, Steps-lift, Steps-if,
}
use goshield.Events.Payload.{ClaimAnalyzedPayload}
use goshield.Events.Producer.Steps.{publish-Steps, publish_payload-Steps}
use goshield.Claims.Domain.{Claim, CreateClaimInput, ReviewInput}
use goshield.Claims.Repository.{columns, Claims, has_id, has_id_in}
use goshield.Claims.Repository.Steps.{
  stamp, reviewed, analyzed, create-Steps, get_by_id-Steps, update_doc_url-Steps,
  update_analysis-Steps, update_status-Steps, delete-Steps,
}
use goshield.Claims.Service.{
  Config, ObjectKey, new_claim, create_claim, publish_created, republish, announce_upload, upload,
  upload_to, upload_document, is_allowed_ext, review_accepted, get_claim, review_claim,
  is_review_status, publish_flagged, handle_analysis_result, delete_claim,
}

module _ {F : Float64} {R : List (Claim F) → List (Claim F) → Type 0} (o : Preorder R) (env : Env)
    (cfg : Config F) where
  publish_created-Steps :
      (claim : Claim F) (url : String) → Steps R (publish_created env cfg claim url)
  unfolding publish_created
  publish_created-Steps claim url = publish_payload-Steps o env _ _ _ _ _

  republish-Steps : (r : Result (Claim F)) (url : String) → Steps R (republish env cfg r url)
  unfolding republish
  republish-Steps (ok claim) url = publish_created-Steps claim url
  republish-Steps (err e) url = Steps-pure o tt

  pub create_claim-Steps :
      (input : CreateClaimInput F)
      → ((i : String) (t : ℕ) (s : List (Claim F))
          → R s (
              s
              ++ columns env (record (new_claim env cfg i input) { created_at = t; updated_at = t })
                ∷ []))
      → Steps R (create_claim env cfg input)
  unfolding create_claim
  create_claim-Steps input grows = search (steps_rules, create-Steps, publish_created-Steps) depth 8

  announce_upload-Steps : (i company url : String) → Steps R (announce_upload env cfg i company url)
  unfolding announce_upload
  announce_upload-Steps i company url =
      search (steps_rules, get_by_id-Steps, republish-Steps) depth 9

  upload-Steps :
      (url : ObjectKey → String → String) (i company : String) (e : List ℕ)
      → ((found : String) (t : ℕ) (s : List (Claim F))
          → R s
              (update_where (has_id_in i company) (stamp t (λ c. record c { doc_url = found })) s))
      → Steps R (upload env cfg url i company e)
  unfolding upload
  upload-Steps url i company e moves =
      search (steps_rules, update_doc_url-Steps, announce_upload-Steps) depth 9

  publish_flagged-Steps : (p : ClaimAnalyzedPayload F) → Steps R (publish_flagged env cfg p)
  unfolding publish_flagged
  publish_flagged-Steps p = search (steps_rules, publish_payload-Steps) depth 9

  pub handle_analysis_result-Steps :
      (p : ClaimAnalyzedPayload F)
      → ((t : ℕ) (s : List (Claim F))
          → R s (
              update_where
                (has_id p.claim_id)
                (stamp t (
                  analyzed (record {
                    claim_id = p.claim_id;
                    fraud_score = p.fraud_score;
                    fraud_reason = p.reason;
                    risk_factors = p.risk_factors;
                  })))
                s))
      → Steps R (handle_analysis_result env cfg p)
  unfolding handle_analysis_result
  handle_analysis_result-Steps p moves =
      search (steps_rules, update_analysis-Steps, publish_flagged-Steps) depth 9

  pub review_claim-Steps :
      (input : ReviewInput)
      → (is_review_status input.status ≡ true
          → (company : String) (t : ℕ) (s : List (Claim F))
          → R s (update_where (has_id_in input.claim_id company) (stamp t (reviewed input)) s))
      → Steps R (review_claim env cfg input)
  unfolding review_claim review_accepted
  review_claim-Steps input moves =
      Steps-if o (not (is_review_status input.status)) _ _ (λ _. Steps-lift o _)
        (λ e. accepted (moves (ground arith)))
    where
      accepted :
          ((company : String) (t : ℕ) (s : List (Claim F))
            → R s (update_where (has_id_in input.claim_id company) (stamp t (reviewed input)) s))
          → Steps R (review_accepted env cfg input)
      accepted moves' = search (steps_rules, update_status-Steps, publish-Steps) depth 9

  upload_to-Steps :
      (storage : Option (ObjectKey → String → String)) (i company : String) (filename : List ℕ)
      → ((found : String) (t : ℕ) (s : List (Claim F))
          → R s
              (update_where (has_id_in i company) (stamp t (λ c. record c { doc_url = found })) s))
      → Steps R (upload_to env cfg storage i company filename)
  unfolding upload_to
  upload_to-Steps none i company filename moves = Steps-lift o _
  upload_to-Steps (some url) i company filename moves =
      Steps-if o (not (is_allowed_ext (to_lower (ext filename)))) _ _ (λ _. Steps-lift o _)
        (λ _. upload-Steps url i company (to_lower (ext filename)) moves)

  pub upload_document-Steps :
      (i company : String) (filename : List ℕ)
      → ((found : String) (t : ℕ) (s : List (Claim F))
          → R s
              (update_where (has_id_in i company) (stamp t (λ c. record c { doc_url = found })) s))
      → Steps R (upload_document env cfg i company filename)
  unfolding upload_document
  upload_document-Steps i company filename moves =
      upload_to-Steps cfg.storage i company filename moves

  pub get_claim-Steps : (i company : String) → Steps R (get_claim env cfg i company)
  unfolding get_claim
  get_claim-Steps i company = get_by_id-Steps o env i company

  pub delete_claim-Steps :
      (i company : String)
      → ((s : List (Claim F)) → R s (delete_where (has_id_in i company) s))
      → Steps R (delete_claim env cfg i company)
  unfolding delete_claim
  delete_claim-Steps i company moves = delete-Steps o env i company moves

module _ {F : Float64} (env : Env) (cfg : Config F) where
  pub publish_created-store :
      (claim : Claim F) (url : String) (w : Claims F)
      → w.store ≡ (publish_created env cfg claim url w).1.store
  publish_created-store claim url w = (publish_created-Steps ≡-Preorder env cfg claim url).from w

  pub publish_flagged-store :
      (p : ClaimAnalyzedPayload F) (w : Claims F) → w.store ≡ (publish_flagged env cfg p w).1.store
  publish_flagged-store p w = (publish_flagged-Steps ≡-Preorder env cfg p).from w
