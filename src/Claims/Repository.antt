-- ===== src/Claims/Repository.antt =====
-- services/claim-service/internal/repository/claim_repository.go: the table `claims` and its SQL.
-- A statement is a function of the rows; `Env` says which calls the database refuses. The order of
-- ORDER BY is the database's, an argument of `list`.
pub mod Steps
pub mod Pages
use goshield.Prelude.{
  ℕ, ◌+◌, ◌-◌, ◌*◌, ◌/◌, String, Bool, ◌&&◌, ◌||◌, none, some, List, [], ◌∷◌, ◌++◌, ◌==◌, eqb, ltb,
  if◌then◌else◌, length, take, drop, any, select, find, update_where, delete_where, Option, none,
  some,
}
use goshield.Go.Errors.{ok, err, not_found, external}
use goshield.Go.Float.{Float64}
use goshield.Go.World.{Env, World, Exec, ◌>>=◌, ◌>>◌, pure, call, time_now, wrapping}
use goshield.Events.Payload.{Message}
use goshield.Claims.Domain.{
  Claim, ClaimStatus, flagged, approved, ListFilter, ListResult, UpdateAnalysisInput, ReviewInput,
}
use goshield.Claims.Where.{build_where_clause, selects}

-- The world of the claim service: its table, and the messages that it has published.
abbrev pub Claims : Float64 → Type 0
Claims F = World (Message F) (List (Claim F))

-- `strings.ToUpper(s) == "ASC"`
abbrev is_asc : String → Bool
is_asc s =
    s == "ASC"
    || s == "asc"
    || s == "Asc"
    || s == "ASc"
    || s == "AsC"
    || s == "aSC"
    || s == "aSc"
    || s == "asC"

-- ⌈total / size⌉
pub page_count : ℕ → ℕ → ℕ
page_count total size = (total + size - 1) / size

-- `if pageSize <= 0 || pageSize > 100 { pageSize = 20 }`
pub page_size_of : ℕ → ℕ
page_size_of n = if eqb n 0 || ltb 100 n then 20 else n

-- `if page <= 0 { page = 1 }`
pub page_of : ℕ → ℕ
page_of n = if eqb n 0 then 1 else n

abbrev pub sort_column : String → String
sort_column s = if s == "fraud_score" || s == "amount" then s else "created_at"

abbrev pub sort_direction : String → String
sort_direction s = if is_asc s then "ASC" else "DESC"

abbrev pub has_id : {F : Float64} → String → Claim F → Bool
has_id i c = c.id == i

abbrev pub has_id_in : {F : Float64} → String → String → Claim F → Bool
has_id_in i company c = c.id == i && c.company_id == company

-- The status that the SQL of `UpdateAnalysis` gives to a score.
unfoldable pub analysis_status : (F : Float64) → F.Num → ClaimStatus
analysis_status F score = if F.ge score (F.decimal 80 2) then flagged else approved

-- `scanClaim`: no row is `ErrNotFound`.
scan_claim : {F : Float64} → Option (Claim F) → Exec (Claims F) (Claim F)
scan_claim none w = (err not_found, w)
scan_claim (some c) w = (ok c, w)

-- A column DATE, which may be NULL.
abbrev pub day_or : Env → Option ℕ → Option ℕ
day_or env none = none
day_or env (some t) = some (env.day t)

-- A claim as its row keeps it.
abbrev pub columns : {F : Float64} → Env → Claim F → Claim F
columns {F} env c = record c {
  amount = F.cents c.amount;
  incident_date = day_or env c.incident_date;
  created_at = env.micros c.created_at;
  updated_at = env.micros c.updated_at;
}

module _ {F : Float64} (env : Env) where
  unfoldable pub create : Claim F → Exec (Claims F) (Claim F)
  create claim = do
    now ← time_now env
    let row = record claim { created_at = now; updated_at = now }
    wrapping "insert claim"
        (call env (λ w. (ok tt, record w { store = w.store ++ columns env row ∷ [] })))
    pure row

  unfoldable pub get_by_id : String → String → Exec (Claims F) (Claim F)
  unfolding scan_claim
  get_by_id i company = call env (λ w. scan_claim (find (has_id_in i company) w.store) w)

  -- An UPDATE of the rows that pass the test; it is an error if there are none.
  abbrev pub update : (Claim F → Bool) → (Claim F → Claim F) → Exec (Claims F) (Unit {0})
  update p set w =
      if any p w.store
      then (
        ok tt,
        record w {
          store = update_where p (λ c. record (set c) { updated_at = env.now w.calls }) w.store;
        },
      )
      else (err not_found, w)

  unfoldable pub update_doc_url : String → String → String → Exec (Claims F) (Unit {0})
  update_doc_url i company url =
      call env (update (has_id_in i company) (λ c. record c { doc_url = url }))

  unfoldable pub update_analysis : UpdateAnalysisInput F → Exec (Claims F) (Unit {0})
  unfolding analysis_status
  update_analysis input = call env (
      update (has_id input.claim_id) (λ c. record c {
        fraud_score = input.fraud_score;
        fraud_reason = input.fraud_reason;
        risk_factors = input.risk_factors;
        status = analysis_status F input.fraud_score;
      }))

  -- `company_id = (SELECT company_id FROM claims WHERE id = $4)`, by the rows of the subquery: it
  -- is an error if there are two.
  update_reviewed : ReviewInput → List (Claim F) → Exec (Claims F) (Unit {0})
  update_reviewed input [] w = (err not_found, w)
  update_reviewed input (r ∷ []) w =
      update (has_id_in input.claim_id r.company_id)
        (λ c. record c {
          status = input.status;
          analyst_id = input.analyst_id;
          analyst_notes = input.analyst_notes;
        })
        w
  update_reviewed input _ w = (err (external w.calls), w)

  unfoldable pub update_status : ReviewInput → Exec (Claims F) (Unit {0})
  unfolding update_reviewed
  update_status input =
      call env (λ w. update_reviewed input (select (has_id input.claim_id) w.store) w)

  unfoldable pub update_status_by_id : String → ClaimStatus → Exec (Claims F) (Unit {0})
  update_status_by_id i s = call env (update (has_id i) (λ c. record c { status = s }))

  unfoldable pub delete : String → String → Exec (Claims F) (Unit {0})
  delete i company = call env λ w.
      if any (has_id_in i company) w.store
      then (ok tt, record w { store = delete_where (has_id_in i company) w.store })
      else (err not_found, w)

  -- The page that a filter asks for, of the rows that it selects.
  abbrev pub page_rows :
      (String → String → List (Claim F) → List (Claim F))
      → ListFilter F
      → List (Claim F)
      → List (Claim F)
  page_rows sorted filter rows = take (page_size_of filter.page_size) (
      drop ((page_of filter.page - 1) * page_size_of filter.page_size) (
        sorted (sort_column filter.sort_by) (sort_direction filter.sort_order)
          (select (selects (build_where_clause filter)) rows)))

  -- `sorted n column order rows`: the order in which the n-th call gives the rows. Rows that are equal
  -- in the column may come in another order each time.
  module _ (sorted : ℕ → String → String → List (Claim F) → List (Claim F)) where
    unfoldable pub list : ListFilter F → Exec (Claims F) (ListResult F)
    list filter = do
      total ←
          wrapping "count claims" (
            call env (λ w. (ok (length (select (selects (build_where_clause filter)) w.store)), w)))
      rows ←
          wrapping "query claims"
            (call env (λ w. (ok (page_rows (sorted w.calls) filter w.store), w)))
      pure (record {
        claims = rows;
        total = total;
        page = page_of filter.page;
        page_size = page_size_of filter.page_size;
        total_pages = page_count total (page_size_of filter.page_size);
      })
