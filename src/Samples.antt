-- ===== src/Samples.antt =====
-- Concrete surroundings and rows for the examples: an environment in which every call succeeds, a
-- configuration, and a table with one claim.
use goshield.Prelude.{◌+◌, false, none, some, [], ◌∷◌, eqb, if◌then◌else◌}
use goshield.Go.Float.{fixed_point}
use goshield.Go.World.{Env}
use goshield.Events.Payload.{ClaimAnalyzedPayload}
use goshield.Claims.Domain.{Claim, pending, approved, CreateClaimInput, ReviewInput, ListFilter}
use goshield.Claims.Repository.{Claims}
use goshield.Claims.Service.{Config}

abbrev pub calm : Env
calm = record {
  fails = λ n. false;
  uuid = λ n. if eqb n 0 then "u-0" else "u-1";
  now = λ n. 1000 + n;
  format_date = λ n. "2024-01-02";
  parse_date = λ s. some 7;
  micros = λ n. n;
  day = λ n. n;
}

abbrev pub config : Config fixed_point
config = record {
  topic_claims_new = "claims.new";
  topic_claims_analyzed = "claims.analyzed";
  topic_claims_flagged = "claims.flagged";
  fraud_threshold_flag = 8000;
  storage = some (λ key type. "s3://documents");
}

abbrev pub car_claim : Claim fixed_point
car_claim = record {
  id = "c-1";
  user_id = "ann";
  company_id = "acme";
  policy_number = "P-100";
  claim_type = "CAR";
  amount = 25000000;
  incident_date = none;
  doc_url = "";
  description = "a dent";
  fraud_score = 0;
  fraud_reason = "";
  risk_factors = [];
  status = pending;
  analyst_id = "";
  analyst_notes = "";
  created_at = 900;
  updated_at = 900;
}

abbrev pub table : Claims fixed_point
table = record { store = car_claim ∷ []; published = []; calls = 0 }

abbrev pub travel_input : CreateClaimInput fixed_point
travel_input = record {
  user_id = "bob";
  company_id = "umbrella";
  policy_number = "P-200";
  claim_type = "TRAVEL";
  amount = 3000000;
  incident_date = some 7;
  description = "lost luggage";
}

abbrev pub suspicious : ClaimAnalyzedPayload fixed_point
suspicious = record {
  claim_id = "c-1";
  company_id = "acme";
  fraud_score = 9100;
  reason = "amount far above the average";
  risk_factors = "amount" ∷ [];
}

abbrev pub approval : ReviewInput
approval = record {
  claim_id = "c-1";
  analyst_id = "eve";
  status = approved;
  analyst_notes = "seen";
}

abbrev pub all_of_acme : ListFilter fixed_point
all_of_acme = record {
  company_id = "acme";
  user_id = "";
  status = "";
  claim_type = "";
  min_amount = 0;
  max_amount = 0;
  date_from = none;
  date_to = none;
  page = 1;
  page_size = 50;
  sort_by = "created_at";
  sort_order = "desc";
}
