-- ===== src/Claims/Service/Examples.antt =====
-- The theorems on services/claim-service/internal/service at a table with one claim.
use goshield.Prelude.{◌+◌, ◌*◌, ◌/◌, ◌≡◌, refl, List, [], ◌∷◌, All}
use goshield.Go.Errors.{ok}
use goshield.Go.Float.{fixed_point}
use goshield.Go.Json.{object}
use goshield.Go.Text.{codes}
use goshield.Go.World.{◌>>=◌}
use goshield.Events.Payload.{event_claim_approved}
use goshield.Claims.Domain.{Claim, more_info, ReviewInput}
use goshield.Claims.Repository.{Claims, day_or, get_by_id}
use goshield.Claims.Service.{
  create_claim, get_claim, review_claim, handle_analysis_result, review_fields,
}
use goshield.Claims.Service.Requests.{
  Request, creates, uploads, gets, reviews, analyses, deletes, serve, serve_all, IsConsistent,
  serve_all-IsConsistent, deleting, serve-SameElsewhere,
}
use goshield.Claims.Service.Tenancy.{SameElsewhere}
use goshield.Claims.Service.Outcomes.{get-create, more_info-publishes_approved}
use goshield.Claims.Service.Analysis.{analysis_overwrites, HasVerdict}
use goshield.Samples.{calm, config, car_claim, table, travel_input, suspicious, approval}

abbrev history : List (Request fixed_point)
history =
    creates travel_input
    ∷ uploads "c-1" "acme" (codes "dent.PDF")
    ∷ analyses suspicious
    ∷ reviews approval
    ∷ gets "c-1" "acme"
    ∷ deletes "c-1" "acme"
    ∷ []

serve_all-IsConsistent_example : All IsConsistent (serve_all calm config history table).store
serve_all-IsConsistent_example = serve_all-IsConsistent calm config history table ((refl, refl), tt)

serve-SameElsewhere_example :
    SameElsewhere "umbrella" table.store (serve calm config (deletes "c-1" "umbrella") table).store
serve-SameElsewhere_example =
    serve-SameElsewhere calm config (deletes "c-1" "umbrella") "umbrella" table
      (deleting "c-1" "umbrella")

read_car_claim : (get_claim calm config "c-1" "acme" table).0 ≡ ok car_claim
unfolding get_claim get_by_id ◌>>=◌
read_car_claim = refl

get-create_example :
    (c : Claim fixed_point) × ((create_claim calm config travel_input table).0 ≡ ok c)
    × ((get_claim calm config "u-0" "umbrella" (create_claim calm config travel_input table).1).0
        ≡ ok (record c {
          amount = (c.amount + 50) / 100 * 100;
          incident_date = day_or calm c.incident_date;
        }))
get-create_example = get-create calm config travel_input table refl refl refl

-- The table once the analyst has approved the claim.
abbrev approved_table : Claims fixed_point
approved_table = record table {
  store = record car_claim { status = approval.status; analyst_id = approval.analyst_id } ∷ [];
}

analysis_overwrites_example :
    All
      (HasVerdict suspicious)
      (handle_analysis_result calm config suspicious approved_table).1.store
analysis_overwrites_example = analysis_overwrites calm config suspicious approved_table refl refl

abbrev question : ReviewInput
question = record approval { status = more_info }

more_info-publishes_approved_example :
    (review_claim calm config question table).1.published
    ≡ record {
      topic = "claims.analyzed";
      event = record {
        id = "u-1";
        type = event_claim_approved;
        occurred_at = 1002;
        company_id = "";
        payload = object (review_fields question);
      };
    }
      ∷ []
more_info-publishes_approved_example =
    more_info-publishes_approved calm config question table car_claim refl refl refl refl
