-- ===== src/Analyzer/Pipeline.antt =====
-- A claim on its way through the services: services/ai-service-go announces the analysis that
-- services/claim-service takes over.
use goshield.Prelude.{
  ℕ, ◌+◌, ◌≡◌, ap, ◌∙◌, String, true, false, List, ◌∷◌, ◌++◌, arith, ◌==◌, any, All,
}
use goshield.Go.Errors.{Error, Result, ok}
use goshield.Go.Float.{Float64}
use goshield.Go.World.{Env, ◌>>=◌}
use goshield.Events.Payload.{
  Event, Message, ClaimCreatedPayload, event_claim_created, unmarshal_created,
}
use goshield.Events.Payload.RoundTrip.{unmarshal-analyzed_fields}
use goshield.Claims.Repository.{Claims, has_id}
use goshield.Claims.Service.{Config, handle_analysis_result}
use goshield.Claims.Service.Analysis.{HasVerdict, analysis_overwrites}
use goshield.Claims.Kafka.{handle_claim_analyzed, handle_event}
use goshield.Analyzer.{
  handle, request_of, Analysis, TopicConfig, InferenceRequest, InferenceResponse, analyzed_payload,
}
use goshield.Analyzer.Outcomes.{handle-publishes, analyzed_message}

module _ {F : Float64} (env here : Env) (cfg : Config F) (topics : TopicConfig)
    (analyze : ℕ → InferenceRequest F → Result (InferenceResponse F))
    (error_text : Error → String) where
  -- The claim service handles the event of an analysis as the result that was announced.
  handle_event-analyzed_message :
      (n : ℕ) (p : ClaimCreatedPayload F) (r : InferenceResponse F) (w : Claims F)
      → (r.claim_id == "") ≡ false
      → (handle_event here cfg (analyzed_message env topics analyze error_text n p r).event w).1
        ≡ (handle_analysis_result here cfg (analyzed_payload env topics analyze error_text p r) w).1
  unfolding handle_event handle_claim_analyzed analyzed_payload ◌>>=◌
  handle_event-analyzed_message n p r w named =
      ground (arith, unmarshal-analyzed_fields (analyzed_payload env topics analyze error_text p r))

  -- What the analyser announces about a claim gets there: the claim service reads the event, and
  -- then the rows with the claim's id are flagged if the score is at least 0.80 and approved if not.
  pub announced_verdict :
      (n : ℕ) (p : ClaimCreatedPayload F) (r : InferenceResponse F) (w : Claims F)
      → (r.claim_id == "") ≡ false
      → any (has_id r.claim_id) w.store ≡ true
      → here.fails w.calls ≡ false
      → All
          (HasVerdict (analyzed_payload env topics analyze error_text p r))
          (handle_event here cfg
            (analyzed_message env topics analyze error_text n p r).event
            w).1.store
  unfolding analyzed_payload
  announced_verdict n p r w named there good = rw (handle_event-analyzed_message n p r w named) (
      analysis_overwrites here cfg (analyzed_payload env topics analyze error_text p r) w there
        good)

  module _ (evt : Event F) (p : ClaimCreatedPayload F) (w : Analysis F) (r : InferenceResponse F)
      (typed : (evt.type == event_claim_created) ≡ true)
      (read : unmarshal_created evt.payload ≡ ok p) (named : (p.claim_id == "") ≡ false)
      (answer : analyze w.calls (request_of env topics analyze error_text p) ≡ ok r)
      (finite : F.finite r.fraud_score ≡ true) (amount : F.finite p.amount ≡ true)
      (good : env.fails (w.calls + 2) ≡ false) (again : env.fails (w.calls + 4) ≡ false) where
    -- From the event of a new claim to the claim's status: the analyser handles the event with an
    -- inference that answers for the same claim, finite numbers and a broker that accepts; the claim
    -- service then handles the first message that this published, with a database that accepts; and
    -- each row with the claim's id is flagged if the score is at least 0.80 and approved if not.
    pub pipeline_verdict :
        (v : Claims F)
        → r.claim_id ≡ p.claim_id
        → any (has_id p.claim_id) v.store ≡ true
        → here.fails v.calls ≡ false
        → (m : Message F) × (rest : List (Message F)) × ((handle env topics analyze error_text evt
              w).1.published
            ≡ w.published ++ m ∷ rest)
          × All
              (HasVerdict (analyzed_payload env topics analyze error_text p r))
              (handle_event here cfg m.event v).1.store
    pipeline_verdict v same there fine =
        let sent =
          handle-publishes env topics analyze error_text evt p w typed read named r answer finite
            amount good again in
        (
          analyzed_message env topics analyze error_text (w.calls + 1) p r,
          _,
          sent.1,
          announced_verdict (w.calls + 1) p r v (ap (λ i. i == "") same ∙ named)
              (ap (λ i. any (has_id i) v.store) same ∙ there) fine,
        )
