-- ===== src/Claims/Where.antt =====
-- services/claim-service/internal/repository/claim_repository.go: `buildWhereClause`. A condition
-- is the column, the comparison and the number of its placeholder, `$1`, `$2`, …; a clause is the
-- conditions joined by AND and the arguments behind the placeholders.
pub mod Correct
use goshield.Prelude.{
  ℕ, ◌+◌, ◌-◌, eqb, String, Bool, true, false, ◌&&◌, not, List, [], ◌∷◌, ◌++◌, Option, none, some,
  ◌==◌, leb, if◌then◌else◌,
}
use goshield.Go.Float.{Float64, zero_float}
use goshield.Claims.Domain.{Claim, ListFilter, status_string}

pub data Column : Type 0 where
  company_id user_id status claim_type amount_min amount_max created_from created_to : Column

pub data Arg (F : Float64) : Type 0 where
  text : String → Arg F
  num : F.Num → Arg F
  time : ℕ → Arg F

pub record Condition : Type 0 where
  pub column : Column
  pub placeholder : ℕ

pub record Clause (F : Float64) : Type 0 where
  pub conditions : List Condition
  pub args : List (Arg F)
  -- `idx`, the number of the next placeholder.
  pub idx : ℕ

abbrev empty_clause : {F : Float64} → Clause F
empty_clause = record { conditions = []; args = []; idx = 1 }

-- One `conditions = append(…); args = append(…); idx++`.
add_condition : {F : Float64} → Column → Arg F → Clause F → Clause F
add_condition col arg c = record {
  conditions = c.conditions ++ record { column = col; placeholder = c.idx } ∷ [];
  args = c.args ++ arg ∷ [];
  idx = c.idx + 1;
}

when_text : {F : Float64} → Column → String → Clause F → Clause F
unfolding add_condition
when_text col s c = if s == "" then c else add_condition col (text s) c

when_positive : {F : Float64} → Column → F.Num → Clause F → Clause F
unfolding add_condition
when_positive {F} col x c = if F.gt x (zero_float F) then add_condition col (num x) c else c

when_time : {F : Float64} → Column → Option ℕ → Clause F → Clause F
unfolding add_condition
when_time col none c = c
when_time col (some t) c = add_condition col (time t) c

pub build_where_clause : {F : Float64} → ListFilter F → Clause F
build_where_clause f = when_time created_to f.date_to (
    when_time created_from f.date_from (
      when_positive amount_max f.max_amount (
        when_positive amount_min f.min_amount (
          when_text claim_type f.claim_type (
            when_text status f.status
              (when_text user_id f.user_id (when_text company_id f.company_id empty_clause)))))))

-- The meaning of a condition at a row, when its placeholder stands for `arg`. An argument of
-- another type than the column's makes the database refuse the query.
holds_at : {F : Float64} → Column → Arg F → Claim F → Bool
holds_at company_id (text s) c = c.company_id == s
holds_at user_id (text s) c = c.user_id == s
holds_at status (text s) c = status_string c.status == s
holds_at claim_type (text s) c = c.claim_type == s
holds_at {F} amount_min (num x) c = F.ge c.amount x
holds_at {F} amount_max (num x) c = F.ge x c.amount
holds_at created_from (time t) c = leb t c.created_at
holds_at created_to (time t) c = leb c.created_at t
holds_at _ _ c = false

-- `args[n - 1]`
nth_arg : {F : Float64} → ℕ → List (Arg F) → Option (Arg F)
nth_arg n [] = none
nth_arg n (a ∷ args) = if eqb n 1 then some a else nth_arg (n - 1) args

condition_holds : {F : Float64} → List (Arg F) → Condition → Claim F → Bool
unfolding holds_at nth_arg
condition_holds args c row = elim (nth_arg c.placeholder args) [
  | none ↦ false
  | some a ↦ holds_at c.column a row
]

all_hold : {F : Float64} → List (Arg F) → List Condition → Claim F → Bool
unfolding condition_holds
all_hold args [] row = true
all_hold args (c ∷ cs) row = condition_holds args c row && all_hold args cs row

-- Does the clause select the row?
pub selects : {F : Float64} → Clause F → Claim F → Bool
unfolding all_hold
selects c row = all_hold c.args c.conditions row
