-- ===== src/Analyzer/Examples.antt =====
-- The theorems on services/ai-service-go at one claim.
use goshield.Prelude.{ℕ, ◌≡◌, refl, String, List, [], ◌∷◌, All}
use goshield.Go.Errors.{Error, Result, ok, err, external}
use goshield.Go.Float.{fixed_point}
use goshield.Go.Json.{object}
use goshield.Events.Payload.{
  Event, Message, ClaimCreatedPayload, created_fields, event_claim_created,
}
use goshield.Events.Payload.RoundTrip.{unmarshal-created_fields}
use goshield.Claims.Service.Analysis.{HasVerdict}
use goshield.Claims.Kafka.{handle_event}
use goshield.Analyzer.{
  Analysis, TopicConfig, InferenceRequest, InferenceResponse, analyzed_payload, handle,
}
use goshield.Analyzer.Outcomes.{analyzed_message, flagged_message, handle-publishes}
use goshield.Analyzer.Pipeline.{pipeline_verdict}
use goshield.Samples.{calm, config, table}

abbrev ai_topics : TopicConfig
ai_topics = record {
  analyzed = "claims.analyzed";
  flagged = "claims.flagged";
  failed = "claims.failed";
}

abbrev verdict : InferenceResponse fixed_point
verdict = record { claim_id = "c-1"; fraud_score = 9100; reason = "amount"; risk_factors = [] }

abbrev answering : ℕ → InferenceRequest fixed_point → Result (InferenceResponse fixed_point)
answering n req = ok verdict

abbrev refusing : ℕ → InferenceRequest fixed_point → Result (InferenceResponse fixed_point)
refusing n req = err (external n)

abbrev no_text : Error → String
no_text e = "error"

abbrev new_car_claim : ClaimCreatedPayload fixed_point
new_car_claim = record {
  claim_id = "c-1";
  doc_url = "";
  amount = 25000000;
  claim_type = "CAR";
  description = "a dent";
  policy_number = "P-100";
  user_id = "ann";
  company_id = "acme";
  account_age_days = 0;
  prior_claims = 0;
  incident_date = "";
}

abbrev new_event : Event fixed_point
new_event = record {
  id = "c-1";
  type = event_claim_created;
  occurred_at = 900;
  company_id = "acme";
  payload = object (created_fields new_car_claim);
}

abbrev start : Analysis fixed_point
start = record { store = tt; published = []; calls = 0 }

handle-publishes_example :
    ((handle calm ai_topics answering no_text new_event start).0 ≡ ok tt)
    × ((handle calm ai_topics answering no_text new_event start).1.published
        ≡ analyzed_message calm ai_topics answering no_text 1 new_car_claim verdict
          ∷ flagged_message calm ai_topics answering no_text 3 new_car_claim verdict
          ∷ [])
handle-publishes_example =
    handle-publishes calm ai_topics answering no_text new_event new_car_claim start refl
      (unmarshal-created_fields new_car_claim) refl verdict refl refl refl refl refl

pipeline_verdict_example :
    (m : Message fixed_point) × (rest : List (Message fixed_point)) × ((handle calm ai_topics
        answering no_text new_event start).1.published
      ≡ m ∷ rest)
    × All
        (HasVerdict (analyzed_payload calm ai_topics answering no_text new_car_claim verdict))
        (handle_event calm config m.event table).1.store
pipeline_verdict_example =
    pipeline_verdict calm calm config ai_topics answering no_text new_event new_car_claim start
      verdict refl (unmarshal-created_fields new_car_claim) refl refl refl refl refl refl table refl
      refl refl
