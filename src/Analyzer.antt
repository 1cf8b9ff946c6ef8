-- ===== src/Analyzer.antt =====
-- services/ai-service-go/internal/consumer/claim_consumer.go: the consumer that has each new claim
-- analysed. The inference service is a parameter, and so is the text of an error. The pause for a
-- claim without a document and the timeout are left out.
pub mod Outcomes
pub mod Pipeline
mod Examples
use goshield.Prelude.{ℕ, ◌+◌, String, Bool, true, false, not, List, [], ◌∷◌, ◌==◌, if◌then◌else◌}
use goshield.Go.Errors.{Error, Result, ok, err, errorf, wrap}
use goshield.Go.Float.{Float64}
use goshield.Go.Json.{Fields, text}
use goshield.Go.World.{Env, World, Exec, ◌>>=◌, pure, lift, wrapping, attempt, new_uuid}
use goshield.Events.Payload.{
  Event, Message, ClaimCreatedPayload, ClaimAnalyzedPayload, ClaimFlaggedPayload,
  event_claim_created, event_claim_analyzed, event_claim_flagged, event_claim_failed,
  analyzed_fields, flagged_fields, unmarshal_created,
}
use goshield.Events.Producer.{publish_payload}

pub record InferenceRequest (F : Float64) : Type 0 where
  pub claim_id : String
  pub amount : F.Num
  pub claim_type : String
  pub description : String
  pub policy_number : String
  pub user_id : String
  pub company_id : String
  pub account_age_days : ℕ
  pub prior_claims_count : ℕ
  pub incident_date : String
  pub doc_url : String

-- What the consumer reads of an inference response.
pub record InferenceResponse (F : Float64) : Type 0 where
  pub claim_id : String
  pub fraud_score : F.Num
  pub reason : String
  pub risk_factors : List String

pub record TopicConfig : Type 0 where
  pub analyzed : String
  pub flagged : String
  pub failed : String

-- The consumer keeps no state of its own.
abbrev pub Analysis : Float64 → Type 0
Analysis F = World (Message F) (Unit {0})

module _ {F : Float64} (env : Env) (topics : TopicConfig)
    (analyze : ℕ → InferenceRequest F → Result (InferenceResponse F))
    (error_text : Error → String) where
  -- The n-th call is answered by `analyze n`.
  ask : InferenceRequest F → Exec (Analysis F) (InferenceResponse F)
  ask req w = (analyze w.calls req, record w { calls = w.calls + 1 })

  pub request_of : ClaimCreatedPayload F → InferenceRequest F
  request_of p = record {
    claim_id = p.claim_id;
    amount = p.amount;
    claim_type = p.claim_type;
    description = p.description;
    policy_number = p.policy_number;
    user_id = p.user_id;
    company_id = p.company_id;
    account_age_days = p.account_age_days;
    prior_claims_count = p.prior_claims;
    incident_date = p.incident_date;
    doc_url = p.doc_url;
  }

  unfoldable pub analyzed_payload :
      ClaimCreatedPayload F → InferenceResponse F → ClaimAnalyzedPayload F
  analyzed_payload p r = record {
    claim_id = r.claim_id;
    company_id = p.company_id;
    fraud_score = r.fraud_score;
    reason = r.reason;
    risk_factors = r.risk_factors;
  }

  unfoldable pub alert_payload : ClaimCreatedPayload F → InferenceResponse F → ClaimFlaggedPayload F
  alert_payload p r = record {
    claim_id = r.claim_id;
    fraud_score = r.fraud_score;
    analyst_email = "";
    company_id = p.company_id;
    amount = p.amount;
    reason = r.reason;
  }

  pub failed_fields : ClaimCreatedPayload F → Error → Fields F
  failed_fields p cause = ("claim_id", text p.claim_id) ∷ ("reason", text (error_text cause)) ∷ []

  publish_failed : ClaimCreatedPayload F → Error → Exec (Analysis F) (Unit {0})
  unfolding failed_fields
  publish_failed p cause = do
    i ← new_uuid env
    publish_payload env topics.failed event_claim_failed i p.company_id (failed_fields p cause)

  alert : ClaimCreatedPayload F → InferenceResponse F → Exec (Analysis F) (Unit {0})
  unfolding alert_payload
  alert p r = do
    i ← new_uuid env
    _ ← attempt (
        publish_payload env topics.flagged event_claim_flagged i p.company_id
          (flagged_fields (alert_payload p r)))
    pure tt

  -- The part of `Handle` behind the inference.
  conclude : ClaimCreatedPayload F → Result (InferenceResponse F) → Exec (Analysis F) (Unit {0})
  unfolding publish_failed alert analyzed_payload
  conclude p (err e) = do _ ← attempt (publish_failed p e); lift (err (wrap "ai analysis" e))
  conclude p (ok r) = do
    i ← new_uuid env
    _ ← attempt (
        publish_payload env topics.analyzed event_claim_analyzed i p.company_id
          (analyzed_fields (analyzed_payload p r)))
    if not (F.ge r.fraud_score (F.decimal 80 2)) then pure tt else alert p r

  infer : ClaimCreatedPayload F → Exec (Analysis F) (Unit {0})
  unfolding ask request_of conclude
  infer p = do answer ← attempt (ask (request_of p)); conclude p answer

  pub handle : Event F → Exec (Analysis F) (Unit {0})
  unfolding infer
  handle evt = if not (evt.type == event_claim_created) then pure tt else do
    p ← wrapping "unmarshal claim.created payload" (lift (unmarshal_created evt.payload))
    if p.claim_id == "" then lift (err (errorf "claim.created event missing claim_id")) else infer p
