-- ===== src/Claims/Http/Requests.antt =====
-- services/claim-service/internal/handler/http.go: the requests with their tags, and the responses.
use Prim.Native.String.{count}
use goshield.Prelude.{ℕ, ◌*◌, String, Bool, ◌&&◌, ◌||◌, Option, none, some, List, ◌==◌, leb}
use goshield.Go.Errors.{Error}
use goshield.Go.Float.{Float64, zero_float}
use goshield.Go.World.{Exec, pure}
use goshield.Claims.Domain.{Claim, ListResult}
use goshield.Claims.Repository.{Claims}

pub record CreateClaimRequest (F : Float64) : Type 0 where
  pub policy_number : String
  pub claim_type : String
  pub amount : F.Num
  pub incident_date : String
  pub description : String

pub record ReviewClaimRequest : Type 0 where
  pub status : String
  pub analyst_notes : String

-- The query of a list; a page or a size that is missing has its default, one that is negative
-- is 0.
pub record ListQuery (F : Float64) : Type 0 where
  pub status : String
  pub claim_type : String
  pub sort_by : String
  pub sort_order : String
  pub page : ℕ
  pub page_size : ℕ
  pub min_amount : Option F.Num
  pub max_amount : Option F.Num
  pub date_from : String
  pub date_to : String

pub data Body (F : Float64) : Type 0 where
  message : String → Body F
  -- The text of an error.
  failure : Error → Body F
  claim : Claim F → Body F
  page : ListResult F → Body F
  doc_url : String → Body F
  csv : List ℕ → Body F
  empty : Body F

pub record Response (F : Float64) : Type 0 where
  pub status : ℕ
  pub body : Body F

abbrev pub respond : {F : Float64} → ℕ → Body F → Exec (Claims F) (Response F)
respond status body = pure (record { status = status; body = body })

abbrev pub respond_error : {F : Float64} → ℕ → String → Exec (Claims F) (Response F)
respond_error status m = respond status (message m)

-- A file of the form: whether it can be opened and read, beside its name and size.
pub record FormFile : Type 0 where
  pub filename : List ℕ
  pub size : ℕ
  pub opens : Bool
  pub reads : Bool

-- The `validate` tags of the two requests.
unfoldable pub is_valid_create : {F : Float64} → CreateClaimRequest F → Bool
is_valid_create {F} r =
    leb 3 (count r.policy_number)
    && leb (count r.policy_number) 50
    && (r.claim_type == "HEALTH"
        || r.claim_type == "CAR"
        || r.claim_type == "PROPERTY"
        || r.claim_type == "LIFE"
        || r.claim_type == "TRAVEL"
        || r.claim_type == "OTHER")
    && F.gt r.amount (zero_float F)
    && leb (count r.description) 2000

unfoldable pub is_valid_review : ReviewClaimRequest → Bool
is_valid_review r =
    (r.status == "APPROVED" || r.status == "REJECTED" || r.status == "MORE_INFO")
    && leb (count r.analyst_notes) 2000

abbrev pub max_upload_bytes : ℕ
max_upload_bytes = 20 * 1048576

abbrev pub or_zero : (F : Float64) → Option F.Num → F.Num
or_zero F none = zero_float F
or_zero F (some x) = x
