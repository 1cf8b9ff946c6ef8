-- ===== src/Claims/Http/Examples.antt =====
-- The theorems on services/claim-service/internal/handler at a table with one claim.
use goshield.Prelude.{
  ℕ, ◌≡◌, ◌≢◌, ◌≤◌, refl, String, none, some, List, [], ◌∷◌, ◌++◌, length, update_where,
}
use goshield.Go.Errors.{ok}
use goshield.Go.Float.{fixed_point}
use goshield.Go.Text.{codes}
use goshield.Go.World.{◌>>=◌}
use goshield.Claims.Domain.{Claim}
use goshield.Claims.Repository.{Claims, has_id_in, list, page_rows}
use goshield.Claims.Service.{list_claims}
use goshield.Claims.Repository.Steps.{stamp, reviewed as rows_reviewed}
use goshield.Claims.Http.{
  is_valid_review, Identity, ReviewClaimRequest, ListQuery, Response, message, csv,
  review_claim_handler, upload_document_handler, export_claims_handler, export_header,
  export_filter, export_rows,
}
use goshield.Claims.Http.Status.{
  review_handler_never_404, review_of_missing_claim, review_of_any_company, review_input,
}
use goshield.Claims.Http.Export.{export_at_most_20}
use goshield.Samples.{calm, config, car_claim, table}

-- An analyst of another company than the claim's.
abbrev stranger : Identity
stranger = record { user_id = "eve"; company_id = "umbrella"; role = "ANALYST" }

abbrev owner : Identity
owner = record { user_id = "joe"; company_id = "acme"; role = "ADMIN" }

abbrev approve : ReviewClaimRequest
approve = record { status = "APPROVED"; analyst_notes = "fine, \"really\"" }

abbrev empty_table : Claims fixed_point
empty_table = record table { store = [] }

abbrev not_reviewed : Response fixed_point
not_reviewed = record { status = 500; body = message "failed to review claim" }

missing_review :
    (review_claim_handler calm config stranger "c-1" (some approve) empty_table).0 ≡ ok not_reviewed
unfolding is_valid_review
missing_review =
    review_of_missing_claim calm config stranger "c-1" approve empty_table refl refl refl refl refl

review_handler_never_404_example : not_reviewed.status ≢ 404
review_handler_never_404_example =
    review_handler_never_404 calm config stranger "c-1" (some approve) empty_table not_reviewed
      missing_review

review_of_any_company_example :
    ((review_claim_handler calm config stranger "c-1" (some approve) table).0
      ≡ ok (record { status = 200; body = message "claim reviewed successfully" }))
    × ((review_claim_handler calm config stranger "c-1" (some approve) table).1.store
        ≡ update_where
            (has_id_in "c-1" "acme")
            (stamp 1001 (rows_reviewed (review_input stranger "c-1" approve)))
            (car_claim ∷ []))
unfolding is_valid_review
review_of_any_company_example =
    review_of_any_company calm config stranger "c-1" approve table refl refl refl refl car_claim
      refl

abbrev no_upload : Response fixed_point
no_upload = record { status = 400; body = message "file field required" }

no_file : (upload_document_handler calm config stranger "c-1" none table).0 ≡ ok no_upload
unfolding upload_document_handler ◌>>=◌
no_file = refl

abbrev any_query : ListQuery fixed_point
any_query = record {
  status = "";
  claim_type = "";
  sort_by = "";
  sort_order = "";
  page = 1;
  page_size = 20;
  min_amount = none;
  max_amount = none;
  date_from = "";
  date_to = "";
}

abbrev as_stored : ℕ → String → String → List (Claim fixed_point) → List (Claim fixed_point)
as_stored n column order rows = rows

abbrev digits : ℕ → ℕ → List ℕ
digits x places = codes "1.5"

abbrev clock : ℕ → List ℕ
clock t = codes "2024-01-02T03:04:05Z"

abbrev exported_table : Response fixed_point
exported_table = record {
  status = 200;
  body = csv (
      export_header calm config as_stored digits clock
      ++ export_rows calm config as_stored digits clock (
          page_rows calm (as_stored 2)
            (export_filter calm config as_stored digits clock owner any_query) table.store));
}

export_at_most_20_example :
    (rows : List (Claim fixed_point)) × (length rows ≤ 20)
    × (exported_table.body
        ≡ csv (
            export_header calm config as_stored digits clock
            ++ export_rows calm config as_stored digits clock rows))
unfolding export_claims_handler list_claims list ◌>>=◌
export_at_most_20_example =
    export_at_most_20 calm config as_stored digits clock owner any_query table exported_table refl
      refl
