-- ===== src/Claims/Http/Status.antt =====
-- services/claim-service/internal/handler/http.go: the status codes of the handlers.
use goshield.Prelude.{
  refl, inl, eq_iff, inr, ◌⊎◌, update_where, ◌+◌, ◌||◌, ◌==◌, ◌∷◌, [], select, ◌≡◌, ◌≢◌, String,
  Option, none, some, arith,
}
use goshield.Go.Errors.{Result, ok, err}
use goshield.Claims.Repository.{has_id, has_id_in}
use goshield.Claims.Domain.{Claim, claim_status}
use goshield.Go.Float.{Float64}
use goshield.Go.World.{Env, ◌>>=◌}
use goshield.Claims.Domain.{claim_status, ReviewInput}
use goshield.Claims.Repository.{Claims}
use goshield.Claims.Service.{Config, review_claim, upload_document}
use goshield.Claims.Service.Wrapped.{IsWrapped, review_claim-IsWrapped, upload_document-IsWrapped}
use goshield.Claims.Service.{is_review_status}
use goshield.Claims.Service.Outcomes.{review_claim_lem, review_claim_missing}
use goshield.Claims.Repository.Steps.{stamp, reviewed as rows_reviewed}
use goshield.Claims.Http.{
  FormFile, true, is_valid_review, false, Bool, message, uploaded, reviewed, Identity,
  ReviewClaimRequest, Response, review_claim_handler, upload_document_handler, reviewed, uploaded,
}

module _ {F : Float64} (env : Env) (cfg : Config F) where
  reviewed-ne-404 :
      (o : Result (Unit {0})) (w : Claims F) (r : Response F)
      → IsWrapped o
      → (reviewed env cfg o w).0 ≡ ok r
      → r.status ≢ 404
  unfolding reviewed ◌>>=◌
  reviewed-ne-404 (ok a) w r h e = ground arith
  reviewed-ne-404 (err x) w r h e = ground arith

  uploaded-ne-404 :
      (o : Result String) (w : Claims F) (r : Response F)
      → IsWrapped o
      → (uploaded env cfg o w).0 ≡ ok r
      → r.status ≢ 404
  unfolding uploaded ◌>>=◌
  uploaded-ne-404 (ok a) w r h e = ground arith
  uploaded-ne-404 (err x) w r h e = ground arith

  -- No review is ever answered by 404: the service wraps the repository's `ErrNotFound`, and the
  -- handler compares the wrapped error.
  pub review_handler_never_404 :
      (who : Identity) (i : String) (req : Option ReviewClaimRequest) (w : Claims F)
      (r : Response F)
      → (review_claim_handler env cfg who i req w).0 ≡ ok r
      → r.status ≢ 404
  unfolding review_claim_handler ◌>>=◌
  review_handler_never_404 who i none w r e = ground arith
  review_handler_never_404 who i (some req) w r e =
      let input : ReviewInput = record {
        claim_id = i;
        analyst_id = who.user_id;
        status = claim_status req.status;
        analyst_notes = req.analyst_notes;
      } in
      let done = review_claim env cfg input w in
      ground (arith, reviewed-ne-404 done.0 done.1 r (review_claim-IsWrapped env cfg input w))

  -- No upload is ever answered by 404, for the same reason.
  pub upload_handler_never_404 :
      (who : Identity) (i : String) (file : Option FormFile) (w : Claims F) (r : Response F)
      → (upload_document_handler env cfg who i file w).0 ≡ ok r
      → r.status ≢ 404
  unfolding upload_document_handler ◌>>=◌
  upload_handler_never_404 who i none w r e = ground arith
  upload_handler_never_404 who i (some f) w r e =
      let done = upload_document env cfg i who.company_id f.filename w in
      ground (
        arith,
        uploaded-ne-404 done.0 done.1 r
            (upload_document-IsWrapped env cfg i who.company_id f.filename w),
      )

or-cases : (a b : Bool) → (a || b) ≡ true → (a ≡ true) ⊎ (b ≡ true)
or-cases true b h = inl refl
or-cases false b h = inr h

reviewable :
    (s : String)
    → (s == "APPROVED" || s == "REJECTED" || s == "MORE_INFO") ≡ true
    → is_review_status (claim_status s) ≡ true
unfolding is_review_status
reviewable s h = elim (or-cases (s == "APPROVED" || s == "REJECTED") (s == "MORE_INFO") h) [
  | inr e ↦ rw ((eq_iff s "MORE_INFO").0 e)
  | inl e ↦ elim (or-cases (s == "APPROVED") (s == "REJECTED") e) [
    | inl d ↦ rw ((eq_iff s "APPROVED").0 d)
    | inr d ↦ rw ((eq_iff s "REJECTED").0 d)
  ]
]

valid-reviewable :
    (req : ReviewClaimRequest)
    → is_valid_review req ≡ true
    → is_review_status (claim_status req.status) ≡ true
unfolding is_valid_review
valid-reviewable req h = ground (arith, reviewable req.status)

-- The input that the handler makes of a request.
abbrev pub review_input : Identity → String → ReviewClaimRequest → ReviewInput
review_input who i req = record {
  claim_id = i;
  analyst_id = who.user_id;
  status = claim_status req.status;
  analyst_notes = req.analyst_notes;
}

module _ {F : Float64} (env : Env) (cfg : Config F) (who : Identity) (i : String)
    (req : ReviewClaimRequest) (w : Claims F)
    (known : (who.user_id == "" || who.company_id == "") ≡ false) (named : (i == "") ≡ false)
    (valid : is_valid_review req ≡ true) (good : env.fails w.calls ≡ false) where
  -- If the caller has a user and a company, the claim has a non-empty id and the database accepts
  -- the call, a valid review of a claim that is not there is answered by 500.
  pub review_of_missing_claim :
      select (has_id i) w.store ≡ []
      → (review_claim_handler env cfg who i (some req) w).0
        ≡ ok (record { status = 500; body = message "failed to review claim" })
  unfolding review_claim_handler ◌>>=◌
  review_of_missing_claim missing = ground (
    arith,
    review_claim_missing env cfg (review_input who i req) w (valid-reviewable req valid) missing
        good,
  )

  -- If the caller has a user and a company, the claim has a non-empty id and the database accepts
  -- the call, a valid review of the one claim with the id is answered by 200 and written, whichever
  -- company the claim and the caller belong to.
  pub review_of_any_company :
      (r : Claim F)
      → select (has_id i) w.store ≡ r ∷ []
      → let done = review_claim_handler env cfg who i (some req) w in
        (done.0 ≡ ok (record { status = 200; body = message "claim reviewed successfully" }))
        × (done.1.store
            ≡ update_where
                (has_id_in i r.company_id)
                (stamp (env.now (w.calls + 1)) (rows_reviewed (review_input who i req)))
                w.store)
  unfolding review_claim_handler ◌>>=◌
  review_of_any_company r one = ground (
    arith,
    review_claim_lem env cfg (review_input who i req) w r (valid-reviewable req valid) one good,
  )
