-- ===== src/Claims/Service/Outcomes.antt =====
-- services/claim-service/internal/service/claim_service.go: what each operation returns, writes and
-- publishes.
use goshield.Prelude.{
  ◌∙◌, ℕ, ◌+◌, ◌≡◌, String, true, false, List, [], ◌∷◌, ◌++◌, arith, any, find_last, select,
  update_where, eq_refl,
}
use goshield.Go.Errors.{wrap, not_found, ok, err, errorf}
use goshield.Go.Float.{Float64}
use goshield.Go.World.{Env, ◌>>=◌}
use goshield.Events.Producer.{publish}
use goshield.Claims.Domain.{more_info, Claim, CreateClaimInput, ReviewInput}
use goshield.Claims.Repository.{
  Claims, columns, day_or, has_id, has_id_in, create, get_by_id, update_status,
}
use goshield.Claims.Repository.Steps.{stamp, reviewed}
use goshield.Claims.Service.{
  review_fields, object, event_claim_approved, review_event_type, review_accepted, Config,
  create_claim, get_claim, review_claim, is_review_status, review_event, new_claim,
}
use goshield.Claims.Service.Steps.{publish_created-store}

any_of_select :
    {F : Float64} (i : String) (s : List (Claim F)) (r : Claim F)
    → select (has_id i) s ≡ r ∷ []
    → any (has_id_in i r.company_id) s ≡ true
any_of_select i [] r e = cc
any_of_select i (x ∷ s) r e =
    ground (arith, any_of_select i s r, eq_refl r.company_id, eq_refl x.company_id)

module _ {F : Float64} (env : Env) (cfg : Config F) where
  -- The claim that `create_claim` gives to the database at call n.
  abbrev stored : CreateClaimInput F → ℕ → Claim F
  stored input n = record (new_claim env cfg (env.uuid n) input) {
    created_at = env.now (n + 1);
    updated_at = env.now (n + 1);
  }

  pub create_claim_lem :
      (input : CreateClaimInput F) (w : Claims F)
      → env.fails (w.calls + 1) ≡ false
      → ((create_claim env cfg input w).0 ≡ ok (stored input w.calls))
        × ((create_claim env cfg input w).1.store
            ≡ w.store ++ columns env (stored input w.calls) ∷ [])
  unfolding create_claim create ◌>>=◌
  create_claim_lem input w good =
      let w' : Claims F = record w {
        store = w.store ++ columns env (stored input w.calls) ∷ [];
        calls = w.calls + 1 + 1;
      } in
      ground (arith, publish_created-store env cfg (stored input w.calls) "" w')

  stored-hit :
      (input : CreateClaimInput F) (n : ℕ)
      → has_id_in (env.uuid n) input.company_id (columns env (stored input n)) ≡ true
  unfolding new_claim
  stored-hit input n = rw (eq_refl (env.uuid n), eq_refl input.company_id)

  -- If the insert and the read succeed and no row of the company has the new id, a claim that was
  -- created is read back by its company, with what the columns keep of it: the amount in cents, the
  -- day of the incident, and the times in microseconds.
  pub get-create :
      (input : CreateClaimInput F) (w : Claims F)
      → env.fails (w.calls + 1) ≡ false
      → any (has_id_in (env.uuid w.calls) input.company_id) w.store ≡ false
      → let done = create_claim env cfg input w in
        env.fails (done.1.calls) ≡ false
        → (c : Claim F) × (done.0 ≡ ok c)
          × ((get_claim env cfg (env.uuid w.calls) input.company_id done.1).0
              ≡ ok (record c {
                amount = F.cents c.amount;
                incident_date = day_or env c.incident_date;
                created_at = env.micros c.created_at;
                updated_at = env.micros c.updated_at;
              }))
  unfolding get_claim get_by_id ◌>>=◌
  get-create input w good fresh later =
      let made = create_claim_lem input w good in
      (
        stored input w.calls,
        made.0,
        rw (later, made.1)
            (rw (
              find_last _ w.store (columns env (stored input w.calls)) fresh
                (stored-hit input w.calls))),
      )

  review_claim_invalid :
      (input : ReviewInput) (w : Claims F)
      → is_review_status input.status ≡ false
      → review_claim env cfg input w ≡ (err (errorf "invalid review status"), w)
  unfolding review_claim ◌>>=◌
  review_claim_invalid input w bad = rw bad

  pub review_claim_missing :
      (input : ReviewInput) (w : Claims F)
      → is_review_status input.status ≡ true
      → select (has_id input.claim_id) w.store ≡ []
      → env.fails w.calls ≡ false
      → review_claim env cfg input w
        ≡ (err (wrap "update claim status" not_found), record w { calls = w.calls + 1 })
  unfolding review_claim review_accepted update_status ◌>>=◌
  review_claim_missing input w allowed missing good = ground arith

  -- A review of the one row with the id.
  module _ (input : ReviewInput) (w : Claims F) (r : Claim F)
      (allowed : is_review_status input.status ≡ true)
      (one : select (has_id input.claim_id) w.store ≡ r ∷ [])
      (good : env.fails w.calls ≡ false) where
    abbrev pub reviewed_rows : List (Claim F)
    reviewed_rows =
        update_where (has_id_in input.claim_id r.company_id)
          (stamp (env.now (w.calls + 1)) (reviewed input)) w.store

    pub review_claim_lem :
        ((review_claim env cfg input w).0 ≡ ok tt)
        × ((review_claim env cfg input w).1.store ≡ reviewed_rows)
    unfolding review_claim review_accepted update_status publish ◌>>=◌
    review_claim_lem = ground (arith, any_of_select input.claim_id w.store r one)

    review_claim-publishes :
        env.fails (w.calls + 2) ≡ false
        → (review_claim env cfg input w).1.published
          ≡ w.published
            ++ record {
              topic = cfg.topic_claims_analyzed;
              event = review_event env cfg input (env.uuid (w.calls + 1)) (env.now (w.calls + 2));
            }
              ∷ []
    unfolding review_claim review_accepted update_status publish ◌>>=◌
    review_claim-publishes sent = ground (arith, any_of_select input.claim_id w.store r one)

  -- If one row has the claim's id, and the database and the broker accept, a review that asks for
  -- more information is published as a claim.approved event, under no company.
  pub more_info-publishes_approved :
      (input : ReviewInput) (w : Claims F) (r : Claim F)
      → input.status ≡ more_info
      → select (has_id input.claim_id) w.store ≡ r ∷ []
      → env.fails w.calls ≡ false
      → env.fails (w.calls + 2) ≡ false
      → (review_claim env cfg input w).1.published
        ≡ w.published
          ++ record {
            topic = cfg.topic_claims_analyzed;
            event = record {
              id = env.uuid (w.calls + 1);
              type = event_claim_approved;
              occurred_at = env.now (w.calls + 2);
              company_id = "";
              payload = object (review_fields input);
            };
          }
            ∷ []
  unfolding is_review_status review_event review_event_type
  more_info-publishes_approved input w r asks one good sent =
      review_claim-publishes input w r (rw asks) one good sent ∙ rw (asks, review_event_type)
