-- ===== src/Claims/Service/Analysis.antt =====
-- services/claim-service/internal/service/claim_service.go: `HandleAnalysisResult`.
use goshield.Prelude.{
  refl, eq_iff, inr, sym, inl, ap, Bool-cases, All, ◌∙◌, map, ◌&&◌, ℕ, ◌+◌, ◌≡◌, true, false, not,
  List, [], ◌∷◌, ◌++◌, arith, any, update_where, if◌then◌else◌,
}
use goshield.Go.Errors.{ok, err, wrap, not_found}
use goshield.Go.Float.{Float64}
use goshield.Go.Json.{object}
use goshield.Go.World.{Env, ◌>>=◌}
use goshield.Events.Payload.{ClaimAnalyzedPayload, flagged_fields, event_claim_flagged}
use goshield.Events.Producer.{publish_payload}
use goshield.Claims.Domain.{flagged, approved, Claim, UpdateAnalysisInput}
use goshield.Claims.Repository.{analysis_status, Claims, has_id, update_analysis}
use goshield.Claims.Repository.Steps.{stamp, analyzed}
use goshield.Claims.Service.{Config, handle_analysis_result, publish_flagged, flagged_payload}
use goshield.Claims.Service.Steps.{publish_flagged-store}

-- The input that the service hands to the repository.
abbrev pub analysis_of : {F : Float64} → ClaimAnalyzedPayload F → UpdateAnalysisInput F
analysis_of p = record {
  claim_id = p.claim_id;
  fraud_score = p.fraud_score;
  fraud_reason = p.reason;
  risk_factors = p.risk_factors;
}

-- The rows after an analysis was written at time t.
abbrev pub analyzed_rows :
    {F : Float64} → ℕ → ClaimAnalyzedPayload F → List (Claim F) → List (Claim F)
analyzed_rows t p = update_where (has_id p.claim_id) (stamp t (analyzed (analysis_of p)))

module _ {F : Float64} (env : Env) (cfg : Config F) (p : ClaimAnalyzedPayload F)
    (w : Claims F) where
  pub analysis-store :
      any (has_id p.claim_id) w.store ≡ true
      → env.fails w.calls ≡ false
      → (handle_analysis_result env cfg p w).1.store
        ≡ analyzed_rows (env.now (w.calls + 1)) p w.store
  unfolding handle_analysis_result update_analysis ◌>>=◌
  analysis-store there good =
      let w' : Claims F = record w {
        store = analyzed_rows (env.now (w.calls + 1)) p w.store;
        calls = w.calls + 1;
      } in
      ground (arith, publish_flagged-store env cfg p w')

  pub analysis_ok :
      any (has_id p.claim_id) w.store ≡ true
      → env.fails w.calls ≡ false
      → (handle_analysis_result env cfg p w).0 ≡ ok tt
  unfolding handle_analysis_result update_analysis publish_flagged ◌>>=◌
  analysis_ok there good = ground arith

  -- Below the threshold nothing is published; from it on, a claim.flagged event is, if the broker
  -- takes it.
  pub analysis-publishes :
      any (has_id p.claim_id) w.store ≡ true
      → env.fails w.calls ≡ false
      → F.finite p.fraud_score ≡ true
      → F.finite (F.decimal 0 0) ≡ true
      → (handle_analysis_result env cfg p w).1.published ≡ (
          if F.ge p.fraud_score cfg.fraud_threshold_flag && not (env.fails (w.calls + 2))
          then w.published
            ++ record {
              topic = cfg.topic_claims_flagged;
              event = record {
                id = env.uuid (w.calls + 1);
                type = event_claim_flagged;
                occurred_at = env.now (w.calls + 2);
                company_id = p.company_id;
                payload = object (flagged_fields (flagged_payload env cfg p));
              };
            }
              ∷ []
          else w.published)
  unfolding handle_analysis_result update_analysis publish_flagged publish_payload flagged_fields
      flagged_payload ◌>>=◌
  analysis-publishes there good finite zero = ground arith

  pub analysis_missing :
      any (has_id p.claim_id) w.store ≡ false
      → env.fails w.calls ≡ false
      → handle_analysis_result env cfg p w
        ≡ (err (wrap "update analysis result" not_found), record w { calls = w.calls + 1 })
  unfolding handle_analysis_result update_analysis ◌>>=◌
  analysis_missing missing good = ground arith

abbrev unstamp : {F : Float64} → Claim F → Claim F
unstamp c = record c { updated_at = 0 }

-- The rows without the time of their last write.
abbrev pub unstamped : {F : Float64} → List (Claim F) → List (Claim F)
unstamped = map unstamp

analyzed_rows_twice :
    {F : Float64} (t u : ℕ) (p : ClaimAnalyzedPayload F) (s : List (Claim F))
    → unstamped (analyzed_rows u p (analyzed_rows t p s)) ≡ unstamped (analyzed_rows t p s)
analyzed_rows_twice t u p [] = refl
analyzed_rows_twice t u p (c ∷ s) = elim (Bool-cases (has_id p.claim_id c)) [
  | inl e ↦
      rw (e, e) (ap (◌∷◌ (stamp 0 (analyzed (analysis_of p)) c)) (analyzed_rows_twice t u p s))
  | inr e ↦ rw (e, e) (ap (◌∷◌ (unstamp c)) (analyzed_rows_twice t u p s))
]

any-analyzed_rows :
    {F : Float64} (t : ℕ) (p : ClaimAnalyzedPayload F) (s : List (Claim F))
    → any (has_id p.claim_id) (analyzed_rows t p s) ≡ any (has_id p.claim_id) s
any-analyzed_rows t p [] = refl
any-analyzed_rows t p (c ∷ s) = ground (arith, any-analyzed_rows t p s)

module _ {F : Float64} (env : Env) (cfg : Config F) (p : ClaimAnalyzedPayload F)
    (w : Claims F) where
  -- If the claim is there and the database accepts both times, a result that is delivered twice
  -- changes nothing but the time of the last write.
  pub analysis_twice :
      any (has_id p.claim_id) w.store ≡ true
      → env.fails w.calls ≡ false
      → let once = (handle_analysis_result env cfg p w).1 in
        env.fails once.calls ≡ false
        → unstamped (handle_analysis_result env cfg p once).1.store ≡ unstamped once.store
  analysis_twice there good again =
      let first = analysis-store env cfg p w there good in
      let once = (handle_analysis_result env cfg p w).1 in
      let still : any (has_id p.claim_id) once.store ≡ true =
        rw first (any-analyzed_rows _ p w.store ∙ there) in
      let second = analysis-store env cfg p once still again in
      ap unstamped second
      ∙ ap (λ s. unstamped (analyzed_rows (env.now (once.calls + 1)) p s)) first
      ∙ analyzed_rows_twice _ _ p w.store
      ∙ sym (ap unstamped first)

-- The row has the status that the score gives, if it has the id.
-- A row with the claim's id is flagged if the score is at least 0.80, and approved if not.
abbrev pub HasVerdict : {F : Float64} → ClaimAnalyzedPayload F → Claim F → Type 0
HasVerdict {F} p c =
    c.id ≡ p.claim_id
    → c.status ≡ (if F.ge p.fraud_score (F.decimal 80 2) then flagged else approved)

analyzed_rows-HasVerdict :
    {F : Float64} (t : ℕ) (p : ClaimAnalyzedPayload F) (s : List (Claim F))
    → All (HasVerdict p) (analyzed_rows t p s)
unfolding analysis_status
analyzed_rows-HasVerdict t p [] = tt
analyzed_rows-HasVerdict t p (c ∷ s) = elim (Bool-cases (has_id p.claim_id c)) [
  | inl e ↦ rw e (λ same. refl, analyzed_rows-HasVerdict t p s)
  | inr e ↦ rw e (λ same. ground (arith, eq_iff c.id p.claim_id), analyzed_rows-HasVerdict t p s)
]

module _ {F : Float64} (env : Env) (cfg : Config F) (p : ClaimAnalyzedPayload F)
    (w : Claims F) where
  -- Whatever status a claim had, an analyst's decision included, it has the verdict of the score
  -- after an analysis of it, if the claim is there and the database accepts.
  pub analysis_overwrites :
      any (has_id p.claim_id) w.store ≡ true
      → env.fails w.calls ≡ false
      → All (HasVerdict p) (handle_analysis_result env cfg p w).1.store
  analysis_overwrites there good =
      rw (analysis-store env cfg p w there good) (analyzed_rows-HasVerdict _ p w.store)
