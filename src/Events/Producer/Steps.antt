-- ===== src/Events/Producer/Steps.antt =====
-- pkg/events/kafka.go: publishing leaves the store of the service alone.
use goshield.Prelude.{String}
use goshield.Go.Float.{Float64}
use goshield.Go.Json.{Fields}
use goshield.Go.World.{Env}
use goshield.Go.World.Steps.{Preorder, Steps, steps_rules}
use goshield.Events.Payload.{Event, Message}
use goshield.Events.Producer.{publish, publish_payload}

module _ {F : Float64} {S : Type 0} {R : S → S → Type 0} (o : Preorder R) (env : Env) where
  pub publish-Steps :
      (topic : String) (evt : Event F) → Steps {M = Message F} R (publish env topic evt)
  unfolding publish
  publish-Steps topic evt = search steps_rules

  pub publish_payload-Steps :
      (topic event_type i company_id : String) (fs : Fields F)
      → Steps {M = Message F} R (publish_payload env topic event_type i company_id fs)
  unfolding publish_payload
  publish_payload-Steps topic event_type i company_id fs = search steps_rules depth 8
