-- ===== src/Claims/Repository/Steps.antt =====
-- services/claim-service/internal/repository/claim_repository.go: how each statement moves the
-- table, along any preorder that the written rows follow.
use goshield.Prelude.{
  arith, ℕ, String, Bool, List, [], ◌∷◌, ◌++◌, Option, none, some, find, select, update_where,
  delete_where,
}
use goshield.Go.Errors.{ok}
use goshield.Go.Float.{Float64}
use goshield.Go.World.{Env}
use goshield.Go.World.Steps.{Preorder, Steps, steps_rules, Steps-call}
use goshield.Claims.Domain.{Claim, UpdateAnalysisInput, ReviewInput}
use goshield.Claims.Repository.{
  Claims, columns, has_id, has_id_in, create, get_by_id, update, update_doc_url, update_analysis,
  update_status, update_reviewed, scan_claim, delete, analysis_status,
}

abbrev pub stamp : {F : Float64} → ℕ → (Claim F → Claim F) → Claim F → Claim F
stamp t set c = record (set c) { updated_at = t }

-- What a review writes into a row, and what an analysis does.
abbrev pub reviewed : {F : Float64} → ReviewInput → Claim F → Claim F
reviewed input c = record c {
  status = input.status;
  analyst_id = input.analyst_id;
  analyst_notes = input.analyst_notes;
}

abbrev pub analyzed : {F : Float64} → UpdateAnalysisInput F → Claim F → Claim F
analyzed {F} input c = record c {
  fraud_score = input.fraud_score;
  fraud_reason = input.fraud_reason;
  risk_factors = input.risk_factors;
  status = analysis_status F input.fraud_score;
}

module _ {F : Float64} {R : List (Claim F) → List (Claim F) → Type 0} (o : Preorder R)
    (env : Env) where
  pub create-Steps :
      (claim : Claim F)
      → ((t : ℕ) (s : List (Claim F))
          → R s (s ++ columns env (record claim { created_at = t; updated_at = t }) ∷ []))
      → Steps R (create env claim)
  unfolding create
  create-Steps claim grows = search (steps_rules, at) depth 8
    where
      at :
          (t : ℕ)
          → Steps R (λ (w : Claims F). (
            ok (tt {0}),
            record w {
              store = w.store ++ columns env (record claim { created_at = t; updated_at = t }) ∷ [];
            },
          ))
      at t = record { from = λ w. grows t w.store }

  scan_claim-Steps :
      (w : Claims F) (found : Option (Claim F)) → R w.store (scan_claim found w).1.store
  unfolding scan_claim
  scan_claim-Steps w none = o.same w.store
  scan_claim-Steps w (some c) = o.same w.store

  pub get_by_id-Steps : (i company : String) → Steps R (get_by_id env i company)
  unfolding get_by_id
  get_by_id-Steps i company =
      Steps-call o env _
        (record { from = λ w. scan_claim-Steps w (find (has_id_in i company) w.store) })

  pub update-Steps :
      (p : Claim F → Bool) (set : Claim F → Claim F)
      → ((t : ℕ) (s : List (Claim F)) → R s (update_where p (stamp t set) s))
      → Steps R (update env p set)
  update-Steps p set moves = record {
    from = λ w. ground (arith, moves (env.now w.calls) w.store, o.same w.store);
  }

  pub update_doc_url-Steps :
      (i company url : String)
      → ((t : ℕ) (s : List (Claim F))
          → R s (update_where (has_id_in i company) (stamp t (λ c. record c { doc_url = url })) s))
      → Steps R (update_doc_url env i company url)
  unfolding update_doc_url
  update_doc_url-Steps i company url moves =
      Steps-call o env _ (update-Steps _ (λ c. record c { doc_url = url }) moves)

  pub update_analysis-Steps :
      (input : UpdateAnalysisInput F)
      → ((t : ℕ) (s : List (Claim F))
          → R s (update_where (has_id input.claim_id) (stamp t (analyzed input)) s))
      → Steps R (update_analysis env input)
  unfolding update_analysis
  update_analysis-Steps input moves = Steps-call o env _ (update-Steps _ (analyzed input) moves)

  pub update_status-Steps :
      (input : ReviewInput)
      → ((company : String) (t : ℕ) (s : List (Claim F))
          → R s (update_where (has_id_in input.claim_id company) (stamp t (reviewed input)) s))
      → Steps R (update_status env input)
  unfolding update_status
  update_status-Steps input moves =
      Steps-call o env _ (record { from = λ w. at w (select (has_id input.claim_id) w.store) })
    where
      at :
          (w : Claims F) (rows : List (Claim F))
          → R w.store (update_reviewed env input rows w).1.store
      at w [] = o.same w.store
      at w (r ∷ []) = (update-Steps _ (reviewed input) (moves r.company_id)).from w
      at w (r ∷ q ∷ rows) = o.same w.store

  pub delete-Steps :
      (i company : String)
      → ((s : List (Claim F)) → R s (delete_where (has_id_in i company) s))
      → Steps R (delete env i company)
  unfolding delete
  delete-Steps i company moves =
      Steps-call o env _ (record { from = λ w. ground (arith, moves w.store, o.same w.store) })
