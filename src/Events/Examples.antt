-- ===== src/Events/Examples.antt =====
-- The theorems on pkg/events at a handler that fails twice, and at one payload.
use goshield.Prelude.{
  ℕ, ◌+◌, ◌≡◌, refl, true, false, none, some, List, [], ◌∷◌, ltb, if◌then◌else◌, arith,
}
use goshield.Go.Errors.{ok, err, external}
use goshield.Go.Float.{fixed_point}
use goshield.Go.Json.{malformed}
use goshield.Go.World.{Exec}
use goshield.Events.Payload.{Event, ClaimCreatedPayload}
use goshield.Events.Consumer.{Fetch, failed, message, attempts, consume, max_retries}
use goshield.Events.Consumer.Retries.{attempts_stop, consume-commits}

-- A handler that counts its runs and fails in the first two.
abbrev third_time : Exec ℕ (Unit {0})
third_time n = ((if ltb n 2 then err (external n) else ok tt), n + 1)

attempts_stop_example : attempts third_time max_retries (ok tt) 0 ≡ (ok tt, 3)
attempts_stop_example =
    attempts_stop third_time 2 3 (ok tt) 0 ((external 0, refl), ((external 1, refl), tt)) refl
      (omega arith)

abbrev some_event : Event fixed_point
some_event = record {
  id = "e";
  type = "claim.created";
  occurred_at = 5;
  company_id = "acme";
  payload = malformed;
}

abbrev fetches : List (Fetch fixed_point)
fetches =
    message 10 (some some_event) true ∷ failed ∷ message 11 none true ∷ message 12 none false ∷ []

consume-commits_example :
    (consume (λ evt. third_time) fetches (record { world = 0; committed = 9 ∷ [] })).committed
    ≡ 9 ∷ 10 ∷ 11 ∷ []
consume-commits_example =
    consume-commits (λ evt. third_time) fetches (record { world = 0; committed = 9 ∷ [] })

abbrev created_sample : ClaimCreatedPayload fixed_point
created_sample = record {
  claim_id = "c-1";
  doc_url = "";
  amount = 25000000;
  claim_type = "CAR";
  description = "a dent";
  policy_number = "P-100";
  user_id = "ann";
  company_id = "acme";
  account_age_days = 0;
  prior_claims = 0;
  incident_date = "";
}
