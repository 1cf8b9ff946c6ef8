-- ===== src/Claims/Service.antt =====
-- services/claim-service/internal/service/claim_service.go: the business operations on claims.
-- Logging is left out.
pub mod Steps
pub mod Tenancy
pub mod Requests
pub mod Outcomes
pub mod Analysis
pub mod Wrapped
mod Examples
use goshield.Prelude.{
  ℕ, String, Bool, true, false, ◌||◌, not, Option, none, some, List, [], ◌∷◌, if◌then◌else◌,
}
use goshield.Go.Errors.{Result, ok, err, errorf}
use goshield.Go.Float.{Float64, zero_float}
use goshield.Go.Json.{Fields, text, object}
use goshield.Go.Text.{codes, codes_eq, to_lower, ext}
use goshield.Go.World.{
  Env, Exec, ◌>>=◌, ◌>>◌, pure, lift, call, time_now, new_uuid, wrapping, attempt,
}
use goshield.Events.Payload.{
  Event, ClaimCreatedPayload, ClaimAnalyzedPayload, ClaimFlaggedPayload, created_fields,
  flagged_fields, event_claim_created, event_claim_approved, event_claim_rejected,
  event_claim_flagged,
}
use goshield.Events.Producer.{publish, publish_payload}
use goshield.Claims.Domain.{
  Claim, ClaimStatus, pending, approved, rejected, more_info, status_string, ListFilter, ListResult,
  CreateClaimInput, ReviewInput,
}
use goshield.Claims.Repository
use goshield.Claims.Repository.{Claims}

-- The key `{company_id}/{claim_id}/{timestamp}{ext}` of a stored document.
pub record ObjectKey : Type 0 where
  pub company_id : String
  pub claim_id : String
  pub timestamp : ℕ
  pub ext : List ℕ

-- The configuration that the service reads; `storage` is nil or the URL of each object that has
-- been uploaded under a key with a content type.
pub record Config (F : Float64) : Type 0 where
  pub topic_claims_new : String
  pub topic_claims_analyzed : String
  pub topic_claims_flagged : String
  pub fraud_threshold_flag : F.Num
  pub storage : Option (ObjectKey → String → String)

-- `allowedExts`
pub is_allowed_ext : List ℕ → Bool
is_allowed_ext e =
    codes_eq e (codes ".pdf")
    || codes_eq e (codes ".jpg")
    || codes_eq e (codes ".jpeg")
    || codes_eq e (codes ".png")

pub content_type_of : List ℕ → String
content_type_of e =
    if codes_eq e (codes ".jpg") || codes_eq e (codes ".jpeg")
    then "image/jpeg"
    else if codes_eq e (codes ".png")
    then "image/png"
    else "application/pdf"

-- The statuses that an analyst may give.
unfoldable pub is_review_status : ClaimStatus → Bool
is_review_status approved = true
is_review_status rejected = true
is_review_status more_info = true
is_review_status _ = false

unfoldable pub review_event_type : ClaimStatus → String
review_event_type rejected = event_claim_rejected
review_event_type _ = event_claim_approved

unfoldable pub review_fields : {F : Float64} → ReviewInput → Fields F
review_fields input =
    ("claim_id", text input.claim_id)
    ∷ ("status", text (status_string input.status))
    ∷ ("analyst_id", text input.analyst_id)
    ∷ ("analyst_notes", text input.analyst_notes)
    ∷ []

module _ {F : Float64} (env : Env) (cfg : Config F) where
  pub date_string : Option ℕ → String
  date_string none = ""
  date_string (some t) = env.format_date t

  pub created_payload : Claim F → String → ClaimCreatedPayload F
  unfolding date_string
  created_payload claim doc_url = record {
    claim_id = claim.id;
    doc_url = doc_url;
    amount = claim.amount;
    claim_type = claim.claim_type;
    description = claim.description;
    policy_number = claim.policy_number;
    user_id = claim.user_id;
    company_id = claim.company_id;
    account_age_days = 0;
    prior_claims = 0;
    incident_date = date_string claim.incident_date;
  }

  pub publish_created : Claim F → String → Exec (Claims F) (Unit {0})
  unfolding created_payload
  publish_created claim doc_url =
      publish_payload env cfg.topic_claims_new event_claim_created claim.id claim.company_id
        (created_fields (created_payload claim doc_url))

  -- The record that `CreateClaim` builds.
  unfoldable pub new_claim : String → CreateClaimInput F → Claim F
  new_claim i input = record {
    id = i;
    user_id = input.user_id;
    company_id = input.company_id;
    policy_number = input.policy_number;
    claim_type = input.claim_type;
    amount = input.amount;
    incident_date = input.incident_date;
    doc_url = "";
    description = input.description;
    fraud_score = zero_float F;
    fraud_reason = "";
    risk_factors = [];
    status = pending;
    analyst_id = "";
    analyst_notes = "";
    created_at = 0;
    updated_at = 0;
  }

  -- A failure to publish is logged only.
  pub create_claim : CreateClaimInput F → Exec (Claims F) (Claim F)
  unfolding new_claim
  create_claim input = do
    i ← new_uuid env
    claim ← wrapping "create claim record" (Repository.create env (new_claim i input))
    _ ← attempt (publish_created claim claim.doc_url)
    pure claim

  republish : Result (Claim F) → String → Exec (Claims F) (Unit {0})
  republish (err e) doc_url = pure tt
  republish (ok claim) doc_url = publish_created claim doc_url

  -- The created event once more, with the URL; its failures are logged only.
  announce_upload : String → String → String → Exec (Claims F) String
  unfolding republish
  announce_upload claim_id company_id doc_url = do
    found ← attempt (Repository.get_by_id env claim_id company_id)
    _ ← attempt (republish found doc_url)
    pure doc_url

  upload : (ObjectKey → String → String) → String → String → List ℕ → Exec (Claims F) String
  upload url claim_id company_id e = do
    now ← time_now env
    let key : ObjectKey = record {
      company_id = company_id;
      claim_id = claim_id;
      timestamp = now;
      ext = e;
    }
    doc_url ← wrapping "upload document" (call env (pure (url key (content_type_of e))))
    wrapping "update doc_url" (Repository.update_doc_url env claim_id company_id doc_url)
    announce_upload claim_id company_id doc_url

  upload_to :
      Option (ObjectKey → String → String) → String → String → List ℕ → Exec (Claims F) String
  unfolding upload
  upload_to none claim_id company_id filename = lift (err (errorf "storage not configured"))
  upload_to (some url) claim_id company_id filename =
      let e = to_lower (ext filename) in
      if not (is_allowed_ext e)
      then lift (err (errorf "unsupported file type"))
      else upload url claim_id company_id e

  pub upload_document : String → String → List ℕ → Exec (Claims F) String
  unfolding upload_to
  upload_document = upload_to cfg.storage

  pub get_claim : String → String → Exec (Claims F) (Claim F)
  get_claim i company_id = Repository.get_by_id env i company_id

  unfoldable pub list_claims :
      (ℕ → String → String → List (Claim F) → List (Claim F))
      → ListFilter F
      → Exec (Claims F) (ListResult F)
  list_claims sorted filter = Repository.list env sorted filter

  -- The event of a review has no company, and its publishing is not checked.
  review_event : ReviewInput → String → ℕ → Event F
  review_event input i now = record {
    id = i;
    type = review_event_type input.status;
    occurred_at = now;
    company_id = "";
    payload = object (review_fields input);
  }

  review_accepted : ReviewInput → Exec (Claims F) (Unit {0})
  unfolding review_event
  review_accepted input = do
    wrapping "update claim status" (Repository.update_status env input)
    i ← new_uuid env
    now ← time_now env
    _ ← attempt (publish env cfg.topic_claims_analyzed (review_event input i now))
    pure tt

  pub review_claim : ReviewInput → Exec (Claims F) (Unit {0})
  unfolding review_accepted
  review_claim input =
      if not (is_review_status input.status)
      then lift (err (errorf "invalid review status"))
      else review_accepted input

  -- The payload of claim.flagged that the service sends has no amount and no analyst.
  unfoldable pub flagged_payload : ClaimAnalyzedPayload F → ClaimFlaggedPayload F
  flagged_payload p = record {
    claim_id = p.claim_id;
    fraud_score = p.fraud_score;
    analyst_email = "";
    company_id = p.company_id;
    amount = zero_float F;
    reason = p.reason;
  }

  announce_flagged : ClaimAnalyzedPayload F → Exec (Claims F) (Unit {0})
  unfolding flagged_payload
  announce_flagged p = do
    i ← new_uuid env
    _ ← attempt (
        publish_payload env cfg.topic_claims_flagged event_claim_flagged i p.company_id
          (flagged_fields (flagged_payload p)))
    pure tt

  pub publish_flagged : ClaimAnalyzedPayload F → Exec (Claims F) (Unit {0})
  unfolding announce_flagged
  publish_flagged p =
      if not (F.ge p.fraud_score cfg.fraud_threshold_flag) then pure tt else announce_flagged p

  pub handle_analysis_result : ClaimAnalyzedPayload F → Exec (Claims F) (Unit {0})
  handle_analysis_result p = do
    wrapping "update analysis result" (
        Repository.update_analysis env (record {
          claim_id = p.claim_id;
          fraud_score = p.fraud_score;
          fraud_reason = p.reason;
          risk_factors = p.risk_factors;
        }))
    publish_flagged p

  pub delete_claim : String → String → Exec (Claims F) (Unit {0})
  delete_claim i company_id = Repository.delete env i company_id
