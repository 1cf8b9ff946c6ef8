-- ===== src/Claims/Where/Correct.antt =====
-- services/claim-service/internal/repository/claim_repository.go: the placeholders of a built
-- clause name the arguments that were appended with them, so the clause means the filter.
use goshield.Prelude.{
  ℕ, zero, suc, ◌+◌, ◌≤◌, ◌<◌, ◌≡◌, refl, ap₂, ◌∙◌, Bool, true, ◌&&◌, ◌||◌, not, String, List, [],
  ◌∷◌, ◌++◌, Option, none, some, arith, length, length-append, All, All-append, ◌==◌, leb,
  Bool-cases, inl, inr,
}
use goshield.Go.Float.{Float64, zero_float}
use goshield.Claims.Domain.{Claim, ListFilter, status_string}
use goshield.Claims.Where.{
  Column, Arg, Condition, Clause, empty_clause, add_condition, when_text, when_positive, when_time,
  build_where_clause, holds_at, nth_arg, condition_holds, all_hold, selects, text, num, time,
}

-- The placeholders stand for arguments that are there.
record IsNumbered {F : Float64} (c : Clause F) : Type 0 where
  next : c.idx ≡ length c.args + 1
  bound : All (λ d. (0 < d.placeholder) × (d.placeholder ≤ length c.args)) c.conditions

nth_arg-append :
    {F : Float64} (n : ℕ) (args : List (Arg F)) (a : Arg F)
    → 0 < n
    → n ≤ length args
    → nth_arg n (args ++ a ∷ []) ≡ nth_arg n args
unfolding nth_arg
nth_arg-append n [] a pos le = absurd (omega arith)
nth_arg-append zero (b ∷ args) a pos le = elim pos [ ]
nth_arg-append (suc zero) (b ∷ args) a pos le = refl
nth_arg-append (suc (suc n)) (b ∷ args) a pos le = ground (arith, nth_arg-append (suc n) args a)

nth_arg_last :
    {F : Float64} (args : List (Arg F)) (a : Arg F)
    → nth_arg (length args + 1) (args ++ a ∷ []) ≡ some a
unfolding nth_arg
nth_arg_last [] a = refl
nth_arg_last (b ∷ args) a = ground (arith, nth_arg_last args a)

condition_holds-append_arg :
    {F : Float64} (args : List (Arg F)) (a : Arg F) (c : Condition) (row : Claim F)
    → (0 < c.placeholder) × (c.placeholder ≤ length args)
    → condition_holds (args ++ a ∷ []) c row ≡ condition_holds args c row
unfolding condition_holds
condition_holds-append_arg args a c row b =
    rw (condition_holds, nth_arg-append c.placeholder args a b.0 b.1)

condition_holds_last :
    {F : Float64} (col : Column) (n : ℕ) (args : List (Arg F)) (a : Arg F) (row : Claim F)
    → n ≡ length args + 1
    → condition_holds (args ++ a ∷ []) (record { column = col; placeholder = n }) row
      ≡ holds_at col a row
unfolding condition_holds
condition_holds_last col n args a row e = rw (condition_holds, e, nth_arg_last args a)

all_hold-append_arg :
    {F : Float64} (args : List (Arg F)) (a : Arg F) (cs : List Condition) (row : Claim F)
    → All (λ d. (0 < d.placeholder) × (d.placeholder ≤ length args)) cs
    → all_hold (args ++ a ∷ []) cs row ≡ all_hold args cs row
unfolding all_hold
all_hold-append_arg args a [] row bound = refl
all_hold-append_arg args a (c ∷ cs) row (b, bound) =
    ap₂ ◌&&◌ (condition_holds-append_arg args a c row b) (all_hold-append_arg args a cs row bound)

all_hold-append :
    {F : Float64} (args : List (Arg F)) (cs ds : List Condition) (row : Claim F)
    → all_hold args (cs ++ ds) row ≡ (all_hold args cs row && all_hold args ds row)
unfolding all_hold
all_hold-append args [] ds row = refl
all_hold-append args (c ∷ cs) ds row = ground (arith, all_hold-append args cs ds row)

weaken :
    (n m : ℕ) (cs : List Condition)
    → n ≤ m
    → All (λ d. (0 < d.placeholder) × (d.placeholder ≤ n)) cs
    → All (λ d. (0 < d.placeholder) × (d.placeholder ≤ m)) cs
weaken n m [] le h = tt
weaken n m (c ∷ cs) le (h, hs) = ((h.0, omega arith), weaken n m cs le hs)

-- What a step from one clause to the next does: it keeps the numbering, and adds one test.
record Adds {F : Float64} (c d : Clause F) (row : Claim F) (test : Bool) : Type 0 where
  numbered : IsNumbered d
  means : selects d row ≡ (selects c row && test)

and-true : (b : Bool) → b ≡ (b && true)
and-true b = ground arith

module _ {F : Float64} (row : Claim F) where
  add_condition-Adds :
      (col : Column) (a : Arg F) (c : Clause F)
      → IsNumbered c
      → Adds c (add_condition col a c) row (holds_at col a row)
  unfolding add_condition selects
  add_condition-Adds col a c v = record {
    numbered = record {
      next = omega (arith, length-append c.args (a ∷ []), v.next);
      bound =
          All-append _ c.conditions _ (weaken _ _ c.conditions fits v.bound)
            ((omega (arith, v.next), omega (arith, v.next, length-append c.args (a ∷ []))), tt);
    };
    means =
        all_hold-append (c.args ++ a ∷ []) c.conditions (here ∷ []) row
        ∙ ap₂ ◌&&◌ (all_hold-append_arg c.args a c.conditions row v.bound) last;
  }
    where
      here : Condition
      here = record { column = col; placeholder = c.idx }

      fits : length c.args ≤ length (c.args ++ a ∷ [])
      fits = omega (arith, length-append c.args (a ∷ []))

      last : all_hold (c.args ++ a ∷ []) (here ∷ []) row ≡ holds_at col a row
      last = ground (arith, condition_holds_last col c.idx c.args a row v.next)

  skip-Adds : (c : Clause F) → IsNumbered c → Adds c c row true
  skip-Adds c v = record { numbered = v; means = and-true (selects c row) }

  when_text-Adds :
      (col : Column) (s : String) (c : Clause F)
      → IsNumbered c
      → Adds c (when_text col s c) row (s == "" || holds_at col (text s) row)
  unfolding when_text
  when_text-Adds col s c v = elim (Bool-cases (s == "")) [
    | inl e ↦ rw e (skip-Adds c v)
    | inr e ↦ rw e (add_condition-Adds col (text s) c v)
  ]

  when_positive-Adds :
      (col : Column) (x : F.Num) (c : Clause F)
      → IsNumbered c
      → Adds c (when_positive col x c) row (not (F.gt x (zero_float F)) || holds_at col (num x) row)
  unfolding when_positive
  when_positive-Adds col x c v = elim (Bool-cases (F.gt x (zero_float F))) [
    | inl e ↦ rw e (add_condition-Adds col (num x) c v)
    | inr e ↦ rw e (skip-Adds c v)
  ]

  abbrev time_test : Column → Option ℕ → Bool
  time_test col none = true
  time_test col (some t) = holds_at col (time t) row

  when_time-Adds :
      (col : Column) (o : Option ℕ) (c : Clause F)
      → IsNumbered c
      → Adds c (when_time col o c) row (time_test col o)
  unfolding when_time
  when_time-Adds col none c v = skip-Adds c v
  when_time-Adds col (some t) c v = add_condition-Adds col (time t) c v

  -- The filter, read off its fields.
  abbrev pub from_time : Option ℕ → Bool
  from_time none = true
  from_time (some t) = leb t row.created_at

  abbrev pub to_time : Option ℕ → Bool
  to_time none = true
  to_time (some t) = leb row.created_at t

  pub matches : ListFilter F → Bool
  matches f =
      (f.company_id == "" || row.company_id == f.company_id)
      && (f.user_id == "" || row.user_id == f.user_id)
      && (f.status == "" || status_string row.status == f.status)
      && (f.claim_type == "" || row.claim_type == f.claim_type)
      && (not (F.gt f.min_amount (zero_float F)) || F.ge row.amount f.min_amount)
      && (not (F.gt f.max_amount (zero_float F)) || F.ge f.max_amount row.amount)
      && from_time f.date_from
      && to_time f.date_to

  from_time_lem : (o : Option ℕ) → time_test Column.created_from o ≡ from_time o
  unfolding holds_at
  from_time_lem none = refl
  from_time_lem (some t) = refl

  to_time_lem : (o : Option ℕ) → time_test Column.created_to o ≡ to_time o
  unfolding holds_at
  to_time_lem none = refl
  to_time_lem (some t) = refl

  IsNumbered-empty : IsNumbered {F = F} empty_clause
  IsNumbered-empty = record { next = refl; bound = tt }

  selects-empty : selects {F = F} empty_clause row ≡ true
  unfolding selects
  selects-empty = refl

  -- The built clause selects a row exactly when the row passes every test that the filter sets.
  pub selects-build_where_clause :
      (f : ListFilter F) → selects (build_where_clause f) row ≡ matches f
  unfolding build_where_clause matches holds_at
  selects-build_where_clause f =
      let a1 = when_text-Adds Column.company_id f.company_id empty_clause IsNumbered-empty in
      let a2 = when_text-Adds Column.user_id f.user_id _ a1.numbered in
      let a3 = when_text-Adds Column.status f.status _ a2.numbered in
      let a4 = when_text-Adds Column.claim_type f.claim_type _ a3.numbered in
      let a5 = when_positive-Adds Column.amount_min f.min_amount _ a4.numbered in
      let a6 = when_positive-Adds Column.amount_max f.max_amount _ a5.numbered in
      let a7 = when_time-Adds Column.created_from f.date_from _ a6.numbered in
      let a8 = when_time-Adds Column.created_to f.date_to _ a7.numbered in
      rw (
        a8.means,
        a7.means,
        a6.means,
        a5.means,
        a4.means,
        a3.means,
        a2.means,
        a1.means,
        selects-empty,
        from_time_lem f.date_from,
        to_time_lem f.date_to,
      )

-- The page has no part in the clause.
pub build_where_clause-page :
    {F : Float64} (f : ListFilter F) (n : ℕ)
    → build_where_clause (record f { page = n }) ≡ build_where_clause f
unfolding build_where_clause
build_where_clause-page f n = refl
