-- ===== src/Go/World/Steps.antt =====
-- How an action moves the store: a preorder between the store before and the store after, with one
-- rule for each way to build an action. An invariant P is the preorder `P s → P t`.
use goshield.Prelude.{◌+◌, String, ◌≡◌, ◌∙◌, refl, Bool, true, false, if◌then◌else◌}
use goshield.Go.Errors.{Result, ok, err, external}
use goshield.Go.World.{
  reads, publish, writes, Env, World, Exec, continue, ◌>>=◌, pure, lift, call, new_uuid, time_now,
  deliver, send, wrapping, attempt,
}

pub record Preorder {S : Type 0} (R : S → S → Type 0) : Type 0 where
  pub same : (s : S) → R s s
  pub chain : (s t u : S) → R s t → R t u → R s u

-- From every world, whether it returns or fails, the action moves the store along R.
pub record Steps {M S A : Type 0} (R : S → S → Type 0) (m : Exec (World M S) A) : Type 0 where
  pub from : (w : World M S) → R w.store (m w).1.store

module _ {M S : Type 0} {R : S → S → Type 0} (o : Preorder R) where
  pub Steps-pure : {A : Type 0} (a : A) → Steps {M = M} R (pure a)
  unfolding pure
  Steps-pure a = record { from = λ w. o.same w.store }

  pub Steps-lift : {A : Type 0} (r : Result A) → Steps {M = M} R (lift r)
  unfolding lift
  Steps-lift r = record { from = λ w. o.same w.store }

  pub Steps-new_uuid : (env : Env) → Steps {M = M} R (new_uuid env)
  unfolding new_uuid
  Steps-new_uuid env = record { from = λ w. o.same w.store }

  pub Steps-time_now : (env : Env) → Steps {M = M} R (time_now env)
  unfolding time_now
  Steps-time_now env = record { from = λ w. o.same w.store }

  pub Steps-reads : {A : Type 0} (f : S → Result A) → Steps {M = M} R (reads f)
  unfolding reads
  Steps-reads f = record { from = λ w. o.same w.store }

  pub Steps-writes : (f : S → S) → ((s : S) → R s (f s)) → Steps {M = M} R (writes f)
  unfolding writes
  Steps-writes f k = record { from = λ w. k w.store }

  pub Steps-publish : (m : M) → Steps R (publish m)
  unfolding publish
  Steps-publish m = record { from = λ w. o.same w.store }

  pub Steps-wrapping :
      {A : Type 0} (context : String) (m : Exec (World M S) A)
      → Steps R m
      → Steps R (wrapping context m)
  unfolding wrapping
  Steps-wrapping context m k = record { from = k.from }

  pub Steps-attempt : {A : Type 0} (m : Exec (World M S) A) → Steps R m → Steps R (attempt m)
  unfolding attempt
  Steps-attempt m k = record { from = k.from }

  pub Steps-call :
      {A : Type 0} (env : Env) (m : Exec (World M S) A) → Steps R m → Steps R (call env m)
  unfolding call
  Steps-call env m k = record { from = λ w. at w (env.fails w.calls) }
    where
      at :
          (w : World M S) (b : Bool)
          → R w.store
              (if b
                then (err (external w.calls), record w { calls = w.calls + 1 })
                else m (record w { calls = w.calls + 1 })).1.store
      at w true = o.same w.store
      at w false = k.from _

  pub Steps-if :
      {A : Type 0} (b : Bool) (m n : Exec (World M S) A)
      → (b ≡ true → Steps R m)
      → (b ≡ false → Steps R n)
      → Steps R (if b then m else n)
  Steps-if true m n km kn = km refl
  Steps-if false m n km kn = kn refl

  Steps-continue :
      {A B : Type 0} (r : Result A) (f : A → Exec (World M S) B)
      → ((a : A) → Steps R (f a))
      → Steps R (continue r f)
  Steps-continue (ok a) f k = k a
  Steps-continue (err e) f k = record { from = λ w. o.same w.store }

  pub Steps-bind :
      {A B : Type 0} (m : Exec (World M S) A) (f : A → Exec (World M S) B)
      → Steps R m
      → ((a : A) → Steps R (f a))
      → Steps R (m >>= f)
  unfolding ◌>>=◌
  Steps-bind m f km kf = record {
    from = λ w. o.chain _ _ _ (km.from w) ((Steps-continue (m w).0 f kf).from (m w).1);
  }

  -- What follows a check may use what the check has found.
  pub Steps-lift_bind :
      {A B : Type 0} (r : Result A) (f : A → Exec (World M S) B)
      → ((a : A) → r ≡ ok a → Steps R (f a))
      → Steps R (lift r >>= f)
  unfolding ◌>>=◌
  Steps-lift_bind (ok a) f k = record { from = (k a refl).from }
  Steps-lift_bind (err e) f k = record { from = λ w. o.same w.store }

  pub Steps-send : (env : Env) (msg : M) → Steps R (send env msg)
  unfolding send
  Steps-send env msg = Steps-call env (deliver env msg) (record { from = λ w. o.same w.store })

pub ruleset steps_rules = (
  Steps-pure, Steps-lift, Steps-new_uuid, Steps-time_now, Steps-wrapping, Steps-attempt, Steps-call,
  Steps-if, Steps-bind, Steps-send, Steps-reads, Steps-writes, Steps-publish,
)

pub ≡-Preorder : {S : Type 0} → Preorder {S = S} ◌≡◌
≡-Preorder = record { same = λ s. refl; chain = λ s t u p q. p ∙ q }
