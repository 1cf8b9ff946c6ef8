-- ===== src/Events/Producer.antt =====
-- pkg/events/kafka.go: the producer.
pub mod Steps
use goshield.Prelude.{String}
use goshield.Go.Float.{Float64}
use goshield.Go.Json.{Fields, marshal}
use goshield.Go.World.{Env, World, Exec, ◌>>=◌, lift, time_now, send, wrapping}
use goshield.Events.Payload.{Event, Message}

module _ {F : Float64} (env : Env) {S : Type 0} where
  unfoldable pub publish : String → Event F → Exec (World (Message F) S) Unit
  publish topic evt = wrapping "publish" (send env (record { topic = topic; event = evt }))

  unfoldable pub publish_payload :
      String → String → String → String → Fields F → Exec (World (Message F) S) Unit
  unfolding publish
  publish_payload topic event_type id company_id payload = do
    json ← wrapping "marshal payload" (lift (marshal payload))
    now ← time_now env
    publish topic (record {
      id = id;
      type = event_type;
      occurred_at = now;
      company_id = company_id;
      payload = json;
    })
