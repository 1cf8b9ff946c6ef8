-- ===== src/Claims/Http.antt =====
-- services/claim-service/internal/handler/http.go: the HTTP handlers. The body parser gives a
-- request or nothing; the query parameters come parsed. Logging is left out.
pub mod Requests
pub mod Status
pub mod Export
mod Examples
use Prim.Native.String.{count}
use goshield.Prelude.{
  ℕ, ◌*◌, String, Bool, true, false, ◌&&◌, ◌||◌, not, Option, none, some, List, [], ◌∷◌, ◌++◌, map,
  ◌==◌, ltb, leb, if◌then◌else◌,
}
use goshield.Go.Errors.{Error, Result, ok, err, is_not_found}
use goshield.Go.Float.{Float64, zero_float}
use goshield.Go.Text.{codes}
use goshield.Go.World.{Env, World, Exec, ◌>>=◌, pure, attempt}
use goshield.Middleware.{Identity}
use goshield.Claims.Domain.{
  Claim, claim_status, status_string, CreateClaimInput, ListFilter, ListResult, ReviewInput,
}
use goshield.Claims.Csv.{csv_escape, csv_row, newline}
pub use goshield.Claims.Http.Requests.{
  CreateClaimRequest, ReviewClaimRequest, ListQuery, Body, Response, FormFile, max_upload_bytes,
  respond, respond_error, or_zero, message, failure, claim, page, doc_url, csv, empty,
}
unfoldable pub use goshield.Claims.Http.Requests.{is_valid_create, is_valid_review}
use goshield.Claims.Repository.{Claims}
use goshield.Claims.Service.{
  Config, create_claim, get_claim, list_claims, upload_document, review_claim, delete_claim,
}

module _ {F : Float64} (env : Env) (cfg : Config F) where
  date_of : String → Option ℕ
  date_of s = if s == "" then none else env.parse_date s

  created : Result (Claim F) → Exec (Claims F) (Response F)
  created (ok c) = respond 201 (claim c)
  created (err e) = respond_error 500 "failed to create claim"

  pub create_claim_handler : Identity → Option (CreateClaimRequest F) → Exec (Claims F) (Response F)
  unfolding date_of created is_valid_create
  create_claim_handler who none =
      if who.user_id == "" || who.company_id == ""
      then respond_error 401 "missing identity in token"
      else respond_error 400 "invalid request body"
  create_claim_handler who (some req) =
      if who.user_id == "" || who.company_id == ""
      then respond_error 401 "missing identity in token"
      else if not (is_valid_create req)
      then respond_error 422 "validation failed"
      else do
        r ← attempt (
            create_claim env cfg (record {
              user_id = who.user_id;
              company_id = who.company_id;
              policy_number = req.policy_number;
              claim_type = req.claim_type;
              amount = req.amount;
              incident_date = date_of req.incident_date;
              description = req.description;
            }))
        created r

  found : Result (Claim F) → Exec (Claims F) (Response F)
  found (ok c) = respond 200 (claim c)
  found (err e) =
      if is_not_found e
      then respond_error 404 "claim not found"
      else respond_error 500 "failed to retrieve claim"

  pub get_claim_handler : Identity → String → Exec (Claims F) (Response F)
  unfolding found
  get_claim_handler who i =
      if who.company_id == ""
      then respond_error 401 "missing company identity"
      else if i == ""
      then respond_error 400 "missing claim id"
      else do r ← attempt (get_claim env cfg i who.company_id); found r

  listed : Result (ListResult F) → Exec (Claims F) (Response F)
  listed (ok r) = respond 200 (page r)
  listed (err e) = respond_error 500 "failed to list claims"

  uploaded : Result String → Exec (Claims F) (Response F)
  uploaded (ok url) = respond 200 (doc_url url)
  uploaded (err e) =
      if is_not_found e then respond_error 404 "claim not found" else respond 500 (failure e)

  pub upload_document_handler : Identity → String → Option FormFile → Exec (Claims F) (Response F)
  unfolding uploaded
  upload_document_handler who i none =
      if who.company_id == ""
      then respond_error 401 "missing company identity"
      else if i == ""
      then respond_error 400 "missing claim id"
      else respond_error 400 "file field required"
  upload_document_handler who i (some f) =
      if who.company_id == ""
      then respond_error 401 "missing company identity"
      else if i == ""
      then respond_error 400 "missing claim id"
      else if ltb max_upload_bytes f.size
      then respond_error 413 "file too large (max 20 MB)"
      else if not f.opens
      then respond_error 500 "failed to open upload"
      else if not f.reads
      then respond_error 500 "failed to read upload"
      else do r ← attempt (upload_document env cfg i who.company_id f.filename); uploaded r

  reviewed : Result (Unit {0}) → Exec (Claims F) (Response F)
  reviewed (ok _) = respond 200 (message "claim reviewed successfully")
  reviewed (err e) =
      if is_not_found e
      then respond_error 404 "claim not found"
      else respond_error 500 "failed to review claim"

  pub review_claim_handler :
      Identity → String → Option ReviewClaimRequest → Exec (Claims F) (Response F)
  unfolding reviewed
  review_claim_handler who i none =
      if who.user_id == "" || who.company_id == ""
      then respond_error 401 "missing identity"
      else if i == ""
      then respond_error 400 "missing claim id"
      else respond_error 400 "invalid request body"
  review_claim_handler who i (some req) =
      if who.user_id == "" || who.company_id == ""
      then respond_error 401 "missing identity"
      else if i == ""
      then respond_error 400 "missing claim id"
      else if not (is_valid_review req)
      then respond_error 422 "validation failed"
      else do
        r ← attempt (
            review_claim env cfg (record {
              claim_id = i;
              analyst_id = who.user_id;
              status = claim_status req.status;
              analyst_notes = req.analyst_notes;
            }))
        reviewed r

  deleted : Result (Unit {0}) → Exec (Claims F) (Response F)
  deleted (ok _) = respond 204 empty
  deleted (err e) =
      if is_not_found e
      then respond_error 404 "claim not found"
      else respond_error 500 "failed to delete claim"

  pub delete_claim_handler : Identity → String → Exec (Claims F) (Response F)
  unfolding deleted
  delete_claim_handler who i =
      if not (who.role == "ADMIN")
      then respond_error 403 "admin role required"
      else do r ← attempt (delete_claim env cfg i who.company_id); deleted r

  -- How numbers and times are printed: `strconv.FormatFloat` with a count of places, and RFC 3339.
  module _ (sorted : ℕ → String → String → List (Claim F) → List (Claim F))
      (format_float : F.Num → ℕ → List ℕ) (format_time : ℕ → List ℕ) where
    pub list_claims_handler : Identity → ListQuery F → Exec (Claims F) (Response F)
    unfolding listed date_of
    list_claims_handler who q =
        if who.company_id == "" then respond_error 401 "missing company identity" else do
          r ← attempt (
              list_claims env cfg sorted (record {
                company_id = who.company_id;
                user_id = "";
                status = q.status;
                claim_type = q.claim_type;
                min_amount = or_zero F q.min_amount;
                max_amount = or_zero F q.max_amount;
                date_from = date_of q.date_from;
                date_to = date_of q.date_to;
                page = q.page;
                page_size = q.page_size;
                sort_by = q.sort_by;
                sort_order = q.sort_order;
              }))
          listed r

    incident : Option ℕ → List ℕ
    incident none = []
    incident (some t) = codes (env.format_date t)

    -- The fields of a claim's row; the notes are escaped here, and once more by `csv_row`.
    pub export_fields : Claim F → List (List ℕ)
    unfolding incident
    export_fields c =
        codes c.id
        ∷ codes c.policy_number
        ∷ codes c.claim_type
        ∷ codes (status_string c.status)
        ∷ format_float c.amount 2
        ∷ format_float c.fraud_score 4
        ∷ []
        ∷ incident c.incident_date
        ∷ format_time c.created_at
        ∷ codes c.analyst_id
        ∷ csv_escape (codes c.analyst_notes)
        ∷ []

    pub export_rows : List (Claim F) → List ℕ
    unfolding export_fields
    export_rows [] = []
    export_rows (c ∷ cs) = csv_row (export_fields c) ++ newline ∷ export_rows cs

    abbrev export_header : List ℕ
    export_header =
        codes
          "id,policy_number,claim_type,status,amount,fraud_score,risk_level,incident_date,created_at,reviewed_by,analyst_notes"
        ++ newline ∷ []

    exported : Result (ListResult F) → Exec (Claims F) (Response F)
    unfolding export_rows
    exported (ok r) = respond 200 (csv (export_header ++ export_rows r.claims))
    exported (err e) = respond_error 500 "failed to export claims"

    -- The filter of an export, with the size of its page as the cap.
    pub export_filter : Identity → ListQuery F → ListFilter F
    unfolding date_of
    export_filter who q = record {
      company_id = who.company_id;
      user_id = "";
      status = q.status;
      claim_type = q.claim_type;
      min_amount = or_zero F q.min_amount;
      max_amount = or_zero F q.max_amount;
      date_from = date_of q.date_from;
      date_to = date_of q.date_to;
      page = 1;
      page_size = 10000;
      sort_by = "created_at";
      sort_order = "desc";
    }

    pub export_claims_handler : Identity → ListQuery F → Exec (Claims F) (Response F)
    unfolding exported export_filter
    export_claims_handler who q =
        if who.company_id == ""
        then respond_error 401 "missing company identity"
        else do r ← attempt (list_claims env cfg sorted (export_filter who q)); exported r
