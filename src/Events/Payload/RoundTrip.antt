-- ===== src/Events/Payload/RoundTrip.antt =====
-- A payload that one service marshals is read back whole by another.
use goshield.Prelude.{◌≡◌, refl, true}
use goshield.Go.Errors.{ok, ◌>>=◌}
use goshield.Go.Float.{Float64}
use goshield.Go.Json.{marshal, object}
use goshield.Events.Payload.{
  ClaimCreatedPayload, ClaimAnalyzedPayload, ClaimFlaggedPayload, created_fields, analyzed_fields,
  flagged_fields, unmarshal_created, unmarshal_analyzed, unmarshal_flagged,
}

module _ {F : Float64} where
  pub unmarshal-created_fields :
      (p : ClaimCreatedPayload F) → unmarshal_created (object (created_fields p)) ≡ ok p
  unfolding unmarshal_created created_fields
  unmarshal-created_fields p = refl

  pub unmarshal-analyzed_fields :
      (p : ClaimAnalyzedPayload F) → unmarshal_analyzed (object (analyzed_fields p)) ≡ ok p
  unfolding unmarshal_analyzed analyzed_fields
  unmarshal-analyzed_fields p = refl

  pub unmarshal-flagged_fields :
      (p : ClaimFlaggedPayload F) → unmarshal_flagged (object (flagged_fields p)) ≡ ok p
  unfolding unmarshal_flagged flagged_fields
  unmarshal-flagged_fields p = refl

  -- A created event whose amount is finite survives marshalling and unmarshalling.
  pub created_round_trip :
      (p : ClaimCreatedPayload F)
      → F.finite p.amount ≡ true
      → (marshal (created_fields p) >>= unmarshal_created) ≡ ok p
  unfolding unmarshal_created created_fields
  created_round_trip p h = rw h

  pub analyzed_round_trip :
      (p : ClaimAnalyzedPayload F)
      → F.finite p.fraud_score ≡ true
      → (marshal (analyzed_fields p) >>= unmarshal_analyzed) ≡ ok p
  unfolding unmarshal_analyzed analyzed_fields
  analyzed_round_trip p h = rw h

  pub flagged_round_trip :
      (p : ClaimFlaggedPayload F)
      → F.finite p.fraud_score ≡ true
      → F.finite p.amount ≡ true
      → (marshal (flagged_fields p) >>= unmarshal_flagged) ≡ ok p
  unfolding unmarshal_flagged flagged_fields
  flagged_round_trip p h k = rw (h, k)
