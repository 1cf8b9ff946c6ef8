-- ===== src/Notifications/Examples.antt =====
-- The theorems on services/notification-service/internal/consumer at two events.
use goshield.Prelude.{◌∷◌, ℕ, ◌≡◌, refl, true, false, List, [], inl}
use goshield.Go.Errors.{Result, err, external}
use goshield.Go.Float.{fixed_point}
use goshield.Go.Json.{object}
use goshield.Events.Payload.{
  Event, ClaimFlaggedPayload, ClaimCreatedPayload, event_claim_flagged, flagged_fields,
}
use goshield.Claims.Service.{flagged_payload}
use goshield.Analyzer.{InferenceRequest, InferenceResponse}
use goshield.Notifications.Consumer.{Outbox, SlackAlert, handle}
use goshield.Notifications.Consumer.Routing.{handle-mails_nobody, handle-levels}
use goshield.Samples.{calm, config, suspicious}

abbrev nothing_sent : Outbox fixed_point
nothing_sent = record { broadcasts = []; mails = []; alerts = [] }

abbrev flagged_claim : ClaimFlaggedPayload fixed_point
flagged_claim = record {
  claim_id = "c-1";
  fraud_score = 9100;
  analyst_email = "eve@acme";
  company_id = "acme";
  amount = 25000000;
  reason = "amount";
}

abbrev flagged_event : Event fixed_point
flagged_event = record {
  id = "e";
  type = event_claim_flagged;
  occurred_at = 1;
  company_id = "acme";
  payload = object (flagged_fields flagged_claim);
}

abbrev flagged_by_claims : Event fixed_point
flagged_by_claims = record flagged_event {
  payload = object (flagged_fields (flagged_payload calm config suspicious));
}

abbrev no_answer : ℕ → InferenceRequest fixed_point → Result (InferenceResponse fixed_point)
no_answer n req = err (external n)

abbrev unused_claim : ClaimCreatedPayload fixed_point
unused_claim = record {
  claim_id = "c-1";
  doc_url = "";
  amount = 25000000;
  claim_type = "CAR";
  description = "a dent";
  policy_number = "P-100";
  user_id = "ann";
  company_id = "acme";
  account_age_days = 0;
  prior_claims = 0;
  incident_date = "";
}

abbrev print : ℕ → List ℕ
print amount = []

handle-mails_nobody_example : (handle print 8000 flagged_by_claims nothing_sent).1.mails ≡ []
handle-mails_nobody_example =
    handle-mails_nobody print 8000 flagged_by_claims nothing_sent calm config
      (record { analyzed = "a"; flagged = "f"; failed = "d" }) no_answer (λ e. "error") suspicious
      unused_claim (record { claim_id = "c-1"; fraud_score = 9100; reason = ""; risk_factors = [] })
      refl (inl refl)

handle-levels_example :
    (a : SlackAlert fixed_point) × ((handle print 8000 flagged_event nothing_sent).1.alerts
      ≡ a ∷ [])
    × (a.fraud_score ≡ 9100)
    × (true ≡ true → a.risk_level ≡ "CRITICAL")
    × (true ≡ false → true ≡ true → a.risk_level ≡ "HIGH")
    × (true ≡ false → true ≡ false → true ≡ true → a.risk_level ≡ "MEDIUM")
    × (true ≡ false → true ≡ false → true ≡ false → a.risk_level ≡ "LOW")
handle-levels_example = handle-levels print 8000 flagged_event nothing_sent flagged_claim refl refl
