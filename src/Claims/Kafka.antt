-- ===== src/Claims/Kafka.antt =====
-- services/claim-service/internal/handler/kafka_consumer.go: the events that the service consumes.
use goshield.Prelude.{◌==◌, if◌then◌else◌}
use goshield.Go.Errors.{err, errorf}
use goshield.Go.Float.{Float64}
use goshield.Go.World.{Env, Exec, ◌>>=◌, pure, lift, wrapping}
use goshield.Events.Payload.{Event, event_claim_analyzed, unmarshal_analyzed}
use goshield.Claims.Repository.{Claims}
use goshield.Claims.Service.{Config, handle_analysis_result}

module _ {F : Float64} (env : Env) (cfg : Config F) where
  unfoldable pub handle_claim_analyzed : Event F → Exec (Claims F) (Unit {0})
  handle_claim_analyzed evt = do
    p ← wrapping "unmarshal claim.analyzed payload" (lift (unmarshal_analyzed evt.payload))
    if p.claim_id == ""
        then lift (err (errorf "claim.analyzed event missing claim_id"))
        else wrapping "handle analysis result" (handle_analysis_result env cfg p)

  unfoldable pub handle_event : Event F → Exec (Claims F) (Unit {0})
  unfolding handle_claim_analyzed
  handle_event evt = if evt.type == event_claim_analyzed then handle_claim_analyzed evt else pure tt
