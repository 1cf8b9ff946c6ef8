-- ===== src/Claims/Domain.antt =====
-- services/claim-service/internal/domain/claim.go.
use goshield.Prelude.{ℕ, String, Option, List, ◌==◌, if◌then◌else◌}
use goshield.Go.Float.{Float64}

-- `type ClaimStatus string`: the named constants, and any other text.
pub data ClaimStatus : Type 0 where
  pending processing flagged approved rejected more_info : ClaimStatus
  other : String → ClaimStatus

-- `string(status)`
abbrev pub status_string : ClaimStatus → String
status_string pending = "PENDING"
status_string processing = "PROCESSING"
status_string flagged = "FLAGGED"
status_string approved = "APPROVED"
status_string rejected = "REJECTED"
status_string more_info = "MORE_INFO"
status_string (other s) = s

-- `ClaimStatus(s)`
abbrev pub claim_status : String → ClaimStatus
claim_status s =
    if s == "PENDING"
    then pending
    else if s == "PROCESSING"
    then processing
    else if s == "FLAGGED"
    then flagged
    else if s == "APPROVED"
    then approved
    else if s == "REJECTED"
    then rejected
    else if s == "MORE_INFO"
    then more_info
    else other s

-- Times are counted from the epoch. A claim type is kept as its text.
pub record Claim (F : Float64) : Type 0 where
  pub id : String
  pub user_id : String
  pub company_id : String
  pub policy_number : String
  pub claim_type : String
  pub amount : F.Num
  pub incident_date : Option ℕ
  pub doc_url : String
  pub description : String
  pub fraud_score : F.Num
  pub fraud_reason : String
  pub risk_factors : List String
  pub status : ClaimStatus
  pub analyst_id : String
  pub analyst_notes : String
  pub created_at : ℕ
  pub updated_at : ℕ

-- A status, type or id that is empty, and a date that is missing, filter nothing. Pages and sizes
-- that are negative in the source behave as 0 does.
pub record ListFilter (F : Float64) : Type 0 where
  pub company_id : String
  pub user_id : String
  pub status : String
  pub claim_type : String
  pub min_amount : F.Num
  pub max_amount : F.Num
  pub date_from : Option ℕ
  pub date_to : Option ℕ
  pub page : ℕ
  pub page_size : ℕ
  pub sort_by : String
  pub sort_order : String

pub record ListResult (F : Float64) : Type 0 where
  pub claims : List (Claim F)
  pub total : ℕ
  pub page : ℕ
  pub page_size : ℕ
  pub total_pages : ℕ

pub record CreateClaimInput (F : Float64) : Type 0 where
  pub user_id : String
  pub company_id : String
  pub policy_number : String
  pub claim_type : String
  pub amount : F.Num
  pub incident_date : Option ℕ
  pub description : String

pub record UpdateAnalysisInput (F : Float64) : Type 0 where
  pub claim_id : String
  pub fraud_score : F.Num
  pub fraud_reason : String
  pub risk_factors : List String

pub record ReviewInput : Type 0 where
  pub claim_id : String
  pub analyst_id : String
  pub status : ClaimStatus
  pub analyst_notes : String
