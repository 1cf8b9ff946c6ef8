-- ===== src/Analyzer/Outcomes.antt =====
-- services/ai-service-go/internal/consumer/claim_consumer.go: what the consumer publishes.
use goshield.Prelude.{ℕ, ◌+◌, ◌≡◌, String, true, false, [], ◌∷◌, ◌++◌, arith, ◌==◌, if◌then◌else◌}
use mathlib.Core.List.{append_assoc}
use goshield.Go.Errors.{Error, Result, ok, err, wrap}
use goshield.Go.Float.{Float64}
use goshield.Go.Json.{object}
use goshield.Go.World.{Env, ◌>>=◌}
use goshield.Events.Payload.{
  Event, Message, ClaimCreatedPayload, event_claim_created, event_claim_analyzed,
  event_claim_flagged, event_claim_failed, analyzed_fields, flagged_fields, unmarshal_created,
}
use goshield.Events.Producer.{publish_payload}
use goshield.Analyzer.{
  Analysis, TopicConfig, InferenceRequest, InferenceResponse, request_of, analyzed_payload,
  alert_payload, failed_fields, handle,
}

module _ {F : Float64} (env : Env) (topics : TopicConfig)
    (analyze : ℕ → InferenceRequest F → Result (InferenceResponse F))
    (error_text : Error → String) where
  -- The message about the result, sent at call n.
  abbrev pub analyzed_message : ℕ → ClaimCreatedPayload F → InferenceResponse F → Message F
  analyzed_message n p r = record {
    topic = topics.analyzed;
    event = record {
      id = env.uuid n;
      type = event_claim_analyzed;
      occurred_at = env.now (n + 1);
      company_id = p.company_id;
      payload = object (analyzed_fields (analyzed_payload env topics analyze error_text p r));
    };
  }

  abbrev pub flagged_message : ℕ → ClaimCreatedPayload F → InferenceResponse F → Message F
  flagged_message n p r = record {
    topic = topics.flagged;
    event = record {
      id = env.uuid n;
      type = event_claim_flagged;
      occurred_at = env.now (n + 1);
      company_id = p.company_id;
      payload = object (flagged_fields (alert_payload env topics analyze error_text p r));
    };
  }

  abbrev pub failed_message : ℕ → ClaimCreatedPayload F → Error → Message F
  failed_message n p e = record {
    topic = topics.failed;
    event = record {
      id = env.uuid n;
      type = event_claim_failed;
      occurred_at = env.now (n + 1);
      company_id = p.company_id;
      payload = object (failed_fields env topics analyze error_text p e);
    };
  }

  module _ (evt : Event F) (p : ClaimCreatedPayload F) (w : Analysis F)
      (typed : (evt.type == event_claim_created) ≡ true)
      (read : unmarshal_created evt.payload ≡ ok p) (named : (p.claim_id == "") ≡ false) where
    -- A new claim that is analysed, with finite numbers and a broker that accepts, is announced as
    -- analysed; with a score of at least 0.80 it is announced as flagged behind that. The handler
    -- succeeds.
    pub handle-publishes :
        (r : InferenceResponse F)
        → analyze w.calls (request_of env topics analyze error_text p) ≡ ok r
        → F.finite r.fraud_score ≡ true
        → F.finite p.amount ≡ true
        → env.fails (w.calls + 2) ≡ false
        → env.fails (w.calls + 4) ≡ false
        → let done = handle env topics analyze error_text evt w in
          (done.0 ≡ ok tt)
          × (done.1.published
              ≡ w.published
                ++ analyzed_message (w.calls + 1) p r
                  ∷ (if F.ge r.fraud_score (F.decimal 80 2)
                      then flagged_message (w.calls + 3) p r ∷ []
                      else []))
    unfolding handle publish_payload analyzed_fields flagged_fields ◌>>=◌
    handle-publishes r answer finite amount good again = ground (
      arith,
      append_assoc w.published (analyzed_message (w.calls + 1) p r ∷ [])
          (flagged_message (w.calls + 3) p r ∷ []),
    )

    -- If the inference fails and the broker accepts, one event says so, with the error's text, and
    -- the handler returns the error.
    pub handle-failed :
        (e : Error)
        → analyze w.calls (request_of env topics analyze error_text p) ≡ err e
        → env.fails (w.calls + 2) ≡ false
        → handle env topics analyze error_text evt w ≡ (
          err (wrap "ai analysis" e),
          record w {
            published = w.published ++ failed_message (w.calls + 1) p e ∷ [];
            calls = w.calls + 3;
          },
        )
    unfolding handle publish_payload ◌>>=◌
    handle-failed e answer good = ground arith

  -- Any event of another type is left alone.
  pub handle-ignores :
      (evt : Event F) (w : Analysis F)
      → (evt.type == event_claim_created) ≡ false
      → handle env topics analyze error_text evt w ≡ (ok tt, w)
  unfolding handle ◌>>=◌
  handle-ignores evt w other = ground arith
