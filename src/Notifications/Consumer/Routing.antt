-- ===== src/Notifications/Consumer/Routing.antt =====
-- services/notification-service/internal/consumer/notification_consumer.go: where each event goes.
use goshield.Prelude.{
  ℕ, ◌≡◌, ap, refl, String, ◌&&◌, not, [], ◌∷◌, ◌++◌, arith, ◌==◌, if◌then◌else◌, inl, inr, ◌⊎◌,
}
use goshield.Go.Errors.{Error, Result, ok}
use goshield.Go.Float.{Float64}
use goshield.Go.Json.{text, float, object}
use goshield.Go.Text.{Text, codes}
use goshield.Go.World.{Env, ◌>>=◌}
use goshield.Events.Payload.{
  Event, ClaimAnalyzedPayload, ClaimCreatedPayload, ClaimFlaggedPayload, event_claim_flagged,
  event_claim_approved, event_claim_analyzed, event_claim_rejected, flagged_fields,
}
use goshield.Events.Payload.RoundTrip.{unmarshal-flagged_fields}
use goshield.Claims.Domain.{ReviewInput, status_string}
use goshield.Claims.Service.{Config, flagged_payload, review_fields}
use goshield.Analyzer.{InferenceRequest, InferenceResponse, TopicConfig, alert_payload}
use goshield.Notifications.Consumer.{
  false, true, FraudAlert, SlackAlert, Outbox, risk_level, handle,
}

abbrev pub alert_of : {F : Float64} → ClaimFlaggedPayload F → FraudAlert F
alert_of {F} p = record {
  claim_id = p.claim_id;
  fraud_score = p.fraud_score;
  risk_level = risk_level F p.fraud_score;
  amount = p.amount;
  reason = p.reason;
  review_url = codes "https://app.goshield.io/claims/" ++ codes p.claim_id;
}

abbrev pub slack_of : {F : Float64} → (F.Num → Text) → ClaimFlaggedPayload F → SlackAlert F
slack_of {F} two_places p = record {
  claim_id = p.claim_id;
  fraud_score = p.fraud_score;
  risk_level = risk_level F p.fraud_score;
  reason = p.reason;
  amount = codes "$" ++ two_places p.amount;
}

module _ {F : Float64} (two_places : F.Num → Text) (threshold : F.Num) (evt : Event F)
    (o : Outbox F) where
  -- An event of a flagged claim is one broadcast to the company of the payload and one alert; it is
  -- one mail if the payload names an analyst and the score reaches the threshold. The handler
  -- succeeds.
  pub handle-flagged :
      (p : ClaimFlaggedPayload F)
      → evt.type ≡ event_claim_flagged
      → evt.payload ≡ object (flagged_fields p)
      → handle two_places threshold evt o ≡ (
        ok tt,
        record {
          broadcasts =
              o.broadcasts
              ++ record {
                company_id = p.company_id;
                type = event_claim_flagged;
                payload =
                    ("claim_id", text p.claim_id)
                    ∷ ("fraud_score", float p.fraud_score)
                    ∷ ("amount", float p.amount)
                    ∷ ("reason", text p.reason)
                    ∷ [];
              }
                ∷ [];
          mails =
              if F.ge p.fraud_score threshold && not (p.analyst_email == "")
              then o.mails ++ (p.analyst_email ∷ [], alert_of p) ∷ []
              else o.mails;
          alerts = o.alerts ++ slack_of two_places p ∷ [];
        },
      )
  unfolding handle ◌>>=◌
  handle-flagged p typed sent =
      ground (arith, ap (λ t. t == event_claim_flagged) typed, unmarshal-flagged_fields p)

  -- An event of a flagged claim leads to exactly one more alert on Slack. Its level is CRITICAL from
  -- 0.90 on, HIGH from 0.75 to there, MEDIUM from 0.50 to there, and LOW below.
  pub handle-levels :
      (p : ClaimFlaggedPayload F)
      → evt.type ≡ event_claim_flagged
      → evt.payload ≡ object (flagged_fields p)
      → (a : SlackAlert F) × ((handle two_places threshold evt o).1.alerts ≡ o.alerts ++ a ∷ [])
        × (a.fraud_score ≡ p.fraud_score)
        × (F.ge p.fraud_score (F.decimal 90 2) ≡ true → a.risk_level ≡ "CRITICAL")
        × (F.ge p.fraud_score (F.decimal 90 2) ≡ false
            → F.ge p.fraud_score (F.decimal 75 2) ≡ true
            → a.risk_level ≡ "HIGH")
        × (F.ge p.fraud_score (F.decimal 90 2) ≡ false
            → F.ge p.fraud_score (F.decimal 75 2) ≡ false
            → F.ge p.fraud_score (F.decimal 50 2) ≡ true
            → a.risk_level ≡ "MEDIUM")
        × (F.ge p.fraud_score (F.decimal 90 2) ≡ false
            → F.ge p.fraud_score (F.decimal 75 2) ≡ false
            → F.ge p.fraud_score (F.decimal 50 2) ≡ false
            → a.risk_level ≡ "LOW")
  unfolding risk_level
  handle-levels p typed sent = (
    slack_of two_places p,
    ap (λ r. r.1.alerts) (handle-flagged p typed sent),
    refl,
    λ top. rw top refl,
    λ top high. rw (top, high) refl,
    λ top high mid. rw (top, high, mid) refl,
    λ top high mid. rw (top, high, mid) refl,
  )

  -- The flagged events of the claim service and of the analyser never lead to a mail, whatever the
  -- score: neither names an analyst.
  pub handle-mails_nobody :
      (env : Env) (cfg : Config F) (topics : TopicConfig)
      (analyze : ℕ → InferenceRequest F → Result (InferenceResponse F))
      (error_text : Error → String) (q : ClaimAnalyzedPayload F) (c : ClaimCreatedPayload F)
      (r : InferenceResponse F)
      → evt.type ≡ event_claim_flagged
      → (evt.payload ≡ object (flagged_fields (flagged_payload env cfg q)))
        ⊎ (evt.payload ≡ object (flagged_fields (alert_payload env topics analyze error_text c r)))
      → (handle two_places threshold evt o).1.mails ≡ o.mails
  unfolding flagged_payload alert_payload
  handle-mails_nobody env cfg topics analyze error_text q c r typed (inl sent) =
      let done = handle-flagged (flagged_payload env cfg q) typed sent in ground arith
  handle-mails_nobody env cfg topics analyze error_text q c r typed (inr sent) =
      let done = handle-flagged (alert_payload env topics analyze error_text c r) typed sent in
      ground arith

  -- The event of a review, which has no company, is broadcast to the company without a name,
  -- whatever company the claim belongs to.
  pub handle-review :
      (input : ReviewInput)
      → (evt.type ≡ event_claim_approved) ⊎ (evt.type ≡ event_claim_rejected)
      → evt.company_id ≡ ""
      → evt.payload ≡ object (review_fields input)
      → (handle two_places threshold evt o).1.broadcasts
        ≡ o.broadcasts
          ++ record {
            company_id = "";
            type = evt.type;
            payload =
                ("claim_id", text input.claim_id)
                ∷ ("status", text (status_string input.status))
                ∷ [];
          }
            ∷ []
  unfolding handle review_fields ◌>>=◌
  handle-review input (inl typed) nobody sent = ground (
    arith,
    ap (λ t. t == event_claim_flagged) typed,
    ap (λ t. t == event_claim_analyzed) typed,
    ap (λ t. t == event_claim_approved) typed,
    ap (λ t. t == event_claim_rejected) typed,
  )
  handle-review input (inr typed) nobody sent = ground (
    arith,
    ap (λ t. t == event_claim_flagged) typed,
    ap (λ t. t == event_claim_analyzed) typed,
    ap (λ t. t == event_claim_approved) typed,
    ap (λ t. t == event_claim_rejected) typed,
  )
