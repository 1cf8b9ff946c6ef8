-- ===== src/Claims/Service/Wrapped.antt =====
-- services/claim-service/internal/service/claim_service.go: the operations that wrap every error of
-- the repository, so that none of their errors is the bare `ErrNotFound`.
use goshield.Prelude.{
  ℕ, ◌≡◌, refl, String, Bool, true, false, not, Option, none, some, List, if◌then◌else◌,
}
use goshield.Go.Errors.{Result, ok, err, wrapf, errorf, is_not_found}
use goshield.Go.Float.{Float64}
use goshield.Go.Text.{to_lower, ext}
use goshield.Go.World.{Env, World, Exec, ◌>>=◌, wrapping, continue, lift}
use goshield.Claims.Domain.{ReviewInput}
use goshield.Claims.Repository.{Claims}
use goshield.Claims.Service.{
  time_now, Config, ObjectKey, review_claim, review_accepted, is_review_status, upload_document,
  upload_to, announce_upload, upload, is_allowed_ext,
}

abbrev pub IsWrapped : {A : Type 0} → Result A → Type 0
IsWrapped (ok a) = Unit {0}
IsWrapped (err e) = is_not_found e ≡ false

module _ {W A B : Type 0} where
  continue-IsWrapped :
      (context : String) (r : Result A) (f : A → Exec W B) (w : W)
      → ((a : A) (v : W) → IsWrapped (f a v).0)
      → IsWrapped (continue (wrapf context r) f w).0
  continue-IsWrapped context (ok a) f w rest = rest a w
  continue-IsWrapped context (err e) f w rest = refl

  wrapping-IsWrapped :
      (context : String) (m : Exec W A) (f : A → Exec W B) (w : W)
      → ((a : A) (v : W) → IsWrapped (f a v).0)
      → IsWrapped ((wrapping context m >>= f) w).0
  unfolding ◌>>=◌
  wrapping-IsWrapped context m f w rest = continue-IsWrapped context (m w).0 f (m w).1 rest

if-IsWrapped :
    {W A : Type 0} (b : Bool) (m n : Exec W A) (w : W)
    → IsWrapped (m w).0
    → IsWrapped (n w).0
    → IsWrapped ((if b then m else n) w).0
if-IsWrapped true m n w hm hn = hm
if-IsWrapped false m n w hm hn = hn

lift-IsWrapped : {W A : Type 0} (r : Result A) (w : W) → IsWrapped r → IsWrapped (lift r w).0
unfolding ◌>>=◌
lift-IsWrapped r w h = h

time_now-IsWrapped :
    {M S B : Type 0} (env : Env) (f : ℕ → Exec (World M S) B) (w : World M S)
    → ((n : ℕ) (v : World M S) → IsWrapped (f n v).0)
    → IsWrapped ((time_now env >>= f) w).0
unfolding ◌>>=◌
time_now-IsWrapped env f w rest = rest _ _

module _ {F : Float64} (env : Env) (cfg : Config F) where
  pub review_claim-IsWrapped :
      (input : ReviewInput) (w : Claims F) → IsWrapped (review_claim env cfg input w).0
  unfolding review_claim
  review_claim-IsWrapped input w =
      if-IsWrapped (not (is_review_status input.status))
        (lift (err (errorf "invalid review status"))) (review_accepted env cfg input) w
        (lift-IsWrapped _ w refl) accepted
    where
      accepted : IsWrapped (review_accepted env cfg input w).0
      accepted = unfold review_accepted in wrapping-IsWrapped _ _ _ w (λ a v. unfold ◌>>=◌ in tt)

  announce_upload-IsWrapped :
      (i company url : String) (w : Claims F)
      → IsWrapped (announce_upload env cfg i company url w).0
  unfolding announce_upload ◌>>=◌
  announce_upload-IsWrapped i company url w = tt

  upload-IsWrapped :
      (url : ObjectKey → String → String) (i company : String) (e : List ℕ) (w : Claims F)
      → IsWrapped (upload env cfg url i company e w).0
  unfolding upload
  upload-IsWrapped url i company e w = time_now-IsWrapped env _ w (λ n v.
      wrapping-IsWrapped _ _ _ v (λ found u.
        wrapping-IsWrapped _ _ _ u (λ a t. announce_upload-IsWrapped i company found t)))

  upload_to-IsWrapped :
      (storage : Option (ObjectKey → String → String)) (i company : String) (filename : List ℕ)
      (w : Claims F)
      → IsWrapped (upload_to env cfg storage i company filename w).0
  unfolding upload_to
  upload_to-IsWrapped none i company filename w = lift-IsWrapped _ w refl
  upload_to-IsWrapped (some url) i company filename w =
      if-IsWrapped (not (is_allowed_ext (to_lower (ext filename)))) _
        (upload env cfg url i company (to_lower (ext filename))) w (lift-IsWrapped _ w refl)
        (upload-IsWrapped url i company (to_lower (ext filename)) w)

  pub upload_document-IsWrapped :
      (i company : String) (filename : List ℕ) (w : Claims F)
      → IsWrapped (upload_document env cfg i company filename w).0
  unfolding upload_document
  upload_document-IsWrapped i company filename w =
      upload_to-IsWrapped cfg.storage i company filename w
