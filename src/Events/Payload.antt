-- ===== src/Events/Payload.antt =====
-- pkg/events/kafka.go: the event envelope, the payloads, and their JSON form under the keys of the
-- `json` tags.
pub mod RoundTrip
use goshield.Prelude.{ℕ, String, List, [], ◌∷◌}
use goshield.Go.Errors.{Result, ok, ◌>>=◌}
use goshield.Go.Float.{Float64}
use goshield.Go.Json.{
  text, float, int, texts, Fields, Json, object_of, get_text, get_float, get_int, get_texts,
}

abbrev pub event_claim_created : String
event_claim_created = "claim.created"

abbrev pub event_claim_analyzed : String
event_claim_analyzed = "claim.analyzed"

abbrev pub event_claim_flagged : String
event_claim_flagged = "claim.flagged"

abbrev pub event_claim_approved : String
event_claim_approved = "claim.approved"

abbrev pub event_claim_rejected : String
event_claim_rejected = "claim.rejected"

abbrev pub event_claim_failed : String
event_claim_failed = "claim.failed"

pub record Event (F : Float64) : Type 0 where
  pub id : String
  pub type : String
  pub occurred_at : ℕ
  pub company_id : String
  pub payload : Json F

-- A message as the broker keeps it.
pub record Message (F : Float64) : Type 0 where
  pub topic : String
  pub event : Event F

pub record ClaimCreatedPayload (F : Float64) : Type 0 where
  pub claim_id : String
  pub doc_url : String
  pub amount : F.Num
  pub claim_type : String
  pub description : String
  pub policy_number : String
  pub user_id : String
  pub company_id : String
  pub account_age_days : ℕ
  pub prior_claims : ℕ
  pub incident_date : String

pub record ClaimAnalyzedPayload (F : Float64) : Type 0 where
  pub claim_id : String
  pub company_id : String
  pub fraud_score : F.Num
  pub reason : String
  pub risk_factors : List String

pub record ClaimFlaggedPayload (F : Float64) : Type 0 where
  pub claim_id : String
  pub fraud_score : F.Num
  pub analyst_email : String
  pub company_id : String
  pub amount : F.Num
  pub reason : String

-- The fields of each payload under the keys of its `json` tags.
pub created_fields : {F : Float64} → ClaimCreatedPayload F → Fields F
created_fields p =
    ("claim_id", text p.claim_id)
    ∷ ("doc_url", text p.doc_url)
    ∷ ("amount", float p.amount)
    ∷ ("claim_type", text p.claim_type)
    ∷ ("description", text p.description)
    ∷ ("policy_number", text p.policy_number)
    ∷ ("user_id", text p.user_id)
    ∷ ("company_id", text p.company_id)
    ∷ ("account_age_days", int p.account_age_days)
    ∷ ("prior_claims", int p.prior_claims)
    ∷ ("incident_date", text p.incident_date)
    ∷ []

unfoldable pub analyzed_fields : {F : Float64} → ClaimAnalyzedPayload F → Fields F
analyzed_fields p =
    ("claim_id", text p.claim_id)
    ∷ ("company_id", text p.company_id)
    ∷ ("fraud_score", float p.fraud_score)
    ∷ ("reason", text p.reason)
    ∷ ("risk_factors", texts p.risk_factors)
    ∷ []

unfoldable pub flagged_fields : {F : Float64} → ClaimFlaggedPayload F → Fields F
flagged_fields p =
    ("claim_id", text p.claim_id)
    ∷ ("fraud_score", float p.fraud_score)
    ∷ ("analyst_email", text p.analyst_email)
    ∷ ("company_id", text p.company_id)
    ∷ ("amount", float p.amount)
    ∷ ("reason", text p.reason)
    ∷ []

-- `json.Unmarshal` into each payload.
pub unmarshal_created : {F : Float64} → Json F → Result (ClaimCreatedPayload F)
unmarshal_created j = do
  fs ← object_of j
  claim_id ← get_text "claim_id" fs
  doc_url ← get_text "doc_url" fs
  amount ← get_float "amount" fs
  claim_type ← get_text "claim_type" fs
  description ← get_text "description" fs
  policy_number ← get_text "policy_number" fs
  user_id ← get_text "user_id" fs
  company_id ← get_text "company_id" fs
  account_age_days ← get_int "account_age_days" fs
  prior_claims ← get_int "prior_claims" fs
  incident_date ← get_text "incident_date" fs
  ok (record {
    claim_id = claim_id;
    doc_url = doc_url;
    amount = amount;
    claim_type = claim_type;
    description = description;
    policy_number = policy_number;
    user_id = user_id;
    company_id = company_id;
    account_age_days = account_age_days;
    prior_claims = prior_claims;
    incident_date = incident_date;
  })

pub unmarshal_analyzed : {F : Float64} → Json F → Result (ClaimAnalyzedPayload F)
unmarshal_analyzed j = do
  fs ← object_of j
  claim_id ← get_text "claim_id" fs
  company_id ← get_text "company_id" fs
  fraud_score ← get_float "fraud_score" fs
  reason ← get_text "reason" fs
  risk_factors ← get_texts "risk_factors" fs
  ok (record {
    claim_id = claim_id;
    company_id = company_id;
    fraud_score = fraud_score;
    reason = reason;
    risk_factors = risk_factors;
  })

pub unmarshal_flagged : {F : Float64} → Json F → Result (ClaimFlaggedPayload F)
unmarshal_flagged j = do
  fs ← object_of j
  claim_id ← get_text "claim_id" fs
  fraud_score ← get_float "fraud_score" fs
  analyst_email ← get_text "analyst_email" fs
  company_id ← get_text "company_id" fs
  amount ← get_float "amount" fs
  reason ← get_text "reason" fs
  ok (record {
    claim_id = claim_id;
    fraud_score = fraud_score;
    analyst_email = analyst_email;
    company_id = company_id;
    amount = amount;
    reason = reason;
  })
