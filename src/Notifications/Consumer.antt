-- ===== src/Notifications/Consumer.antt =====
-- services/notification-service/internal/consumer/notification_consumer.go: from events to
-- broadcasts, mails and Slack alerts. Whether a mail or an alert arrives is not looked at.
pub mod Routing
use goshield.Prelude.{
  String, Bool, true, false, ◌&&◌, ◌||◌, not, List, [], ◌∷◌, ◌++◌, ◌==◌, if◌then◌else◌,
}
use goshield.Go.Errors.{Error, Result, ok, err}
use goshield.Go.Float.{Float64}
use goshield.Go.Json.{Fields, Json, text, float, texts, object_of, get_text}
use goshield.Go.Text.{Text, codes}
use goshield.Go.World.{Exec, ◌>>=◌, ◌>>◌, pure, lift, wrapping, attempt}
use goshield.Events.Payload.{
  Event, ClaimAnalyzedPayload, ClaimFlaggedPayload, event_claim_analyzed, event_claim_flagged,
  event_claim_approved, event_claim_rejected, unmarshal_analyzed, unmarshal_flagged,
}

-- A `hub.Message`.
pub record Broadcast (F : Float64) : Type 0 where
  pub company_id : String
  pub type : String
  pub payload : Fields F

-- The data of a mail.
pub record FraudAlert (F : Float64) : Type 0 where
  pub claim_id : String
  pub fraud_score : F.Num
  pub risk_level : String
  pub amount : F.Num
  pub reason : String
  pub review_url : Text

-- The arguments of an alert to Slack; the amount is a text.
pub record SlackAlert (F : Float64) : Type 0 where
  pub claim_id : String
  pub fraud_score : F.Num
  pub risk_level : String
  pub reason : String
  pub amount : Text

-- What the consumer has sent: broadcasts to the hub, mails to the analysts, alerts to Slack.
pub record Outbox (F : Float64) : Type 0 where
  pub broadcasts : List (Broadcast F)
  pub mails : List (List String × FraudAlert F)
  pub alerts : List (SlackAlert F)

unfoldable pub risk_level : (F : Float64) → F.Num → String
risk_level F score =
    if F.ge score (F.decimal 90 2)
    then "CRITICAL"
    else if F.ge score (F.decimal 75 2)
    then "HIGH"
    else if F.ge score (F.decimal 50 2)
    then "MEDIUM"
    else "LOW"

-- `two_places` is `%.2f`.
module _ {F : Float64} (two_places : F.Num → Text) where
  alert_data : ClaimFlaggedPayload F → FraudAlert F
  unfolding risk_level
  alert_data p = record {
    claim_id = p.claim_id;
    fraud_score = p.fraud_score;
    risk_level = risk_level F p.fraud_score;
    amount = p.amount;
    reason = p.reason;
    review_url = codes "https://app.goshield.io/claims/" ++ codes p.claim_id;
  }

  slack_data : ClaimFlaggedPayload F → SlackAlert F
  unfolding risk_level
  slack_data p = record {
    claim_id = p.claim_id;
    fraud_score = p.fraud_score;
    risk_level = risk_level F p.fraud_score;
    reason = p.reason;
    amount = codes "$" ++ two_places p.amount;
  }

  -- `wsHub.Broadcast`, `mailer.SendFraudAlert`, `slackNotifier.SendFraudAlert`
  pub post : Broadcast F → Exec (Outbox F) (Unit {0})
  post b o = (ok tt, record o { broadcasts = o.broadcasts ++ b ∷ [] })

  pub mail : List String → FraudAlert F → Exec (Outbox F) (Unit {0})
  mail to a o = (ok tt, record o { mails = o.mails ++ (to, a) ∷ [] })

  pub slack : SlackAlert F → Exec (Outbox F) (Unit {0})
  slack a o = (ok tt, record o { alerts = o.alerts ++ a ∷ [] })

  -- The mail goes to the analyst of the payload, if it names one and the score reaches the
  -- threshold.
  mail_analyst : F.Num → ClaimFlaggedPayload F → Exec (Outbox F) (Unit {0})
  unfolding mail alert_data
  mail_analyst alert_threshold p =
      if F.ge p.fraud_score alert_threshold && not (p.analyst_email == "")
      then mail (p.analyst_email ∷ []) (alert_data p)
      else pure tt

  pub handle_claim_flagged : F.Num → Event F → Exec (Outbox F) (Unit {0})
  unfolding post slack mail_analyst slack_data
  handle_claim_flagged alert_threshold evt = do
    p ← wrapping "unmarshal claim.flagged" (lift (unmarshal_flagged evt.payload))
    post (record {
      company_id = p.company_id;
      type = "claim.flagged";
      payload =
          ("claim_id", text p.claim_id)
          ∷ ("fraud_score", float p.fraud_score)
          ∷ ("amount", float p.amount)
          ∷ ("reason", text p.reason)
          ∷ [];
    })
    mail_analyst alert_threshold p
    slack (slack_data p)

  pub handle_claim_analyzed : Event F → Exec (Outbox F) (Unit {0})
  unfolding post
  handle_claim_analyzed evt = do
    p ← wrapping "unmarshal claim.analyzed" (lift (unmarshal_analyzed evt.payload))
    post (record {
      company_id = evt.company_id;
      type = "claim.analyzed";
      payload =
          ("claim_id", text p.claim_id)
          ∷ ("fraud_score", float p.fraud_score)
          ∷ ("risk_factors", texts p.risk_factors)
          ∷ [];
    })

  -- A status payload: the claim and its status.
  pub unmarshal_status : Json F → Result (String × String)
  unmarshal_status j = elim (object_of j) [
    | err e ↦ err e
    | ok fs ↦ elim (get_text "claim_id" fs) [
      | err e ↦ err e
      | ok claim_id ↦ elim (get_text "status" fs) [
        | err e ↦ err e
        | ok status ↦ ok (claim_id, status)
      ]
    ]
  ]

  -- What cannot be read is passed over.
  announce_status : Event F → Result (String × String) → Exec (Outbox F) (Unit {0})
  unfolding post
  announce_status evt (err e) = pure tt
  announce_status evt (ok (claim_id, status)) = post (record {
    company_id = evt.company_id;
    type = evt.type;
    payload = ("claim_id", text claim_id) ∷ ("status", text status) ∷ [];
  })

  pub handle_claim_status_change : Event F → Exec (Outbox F) (Unit {0})
  unfolding announce_status unmarshal_status
  handle_claim_status_change evt = announce_status evt (unmarshal_status evt.payload)

  pub handle : F.Num → Event F → Exec (Outbox F) (Unit {0})
  unfolding handle_claim_flagged handle_claim_analyzed handle_claim_status_change
  handle alert_threshold evt =
      if evt.type == event_claim_flagged
      then handle_claim_flagged alert_threshold evt
      else if evt.type == event_claim_analyzed
      then handle_claim_analyzed evt
      else if evt.type == event_claim_approved || evt.type == event_claim_rejected
      then handle_claim_status_change evt
      else pure tt
