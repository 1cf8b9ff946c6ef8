-- ===== src/Go/World/Refuses.antt =====
-- Actions that always fail and leave the store as it is, with one rule for each way to build one.
use goshield.Prelude.{refl, sym, ◌∙◌, ◌+◌, ◌≡◌, String, Bool, true, false, arith, if◌then◌else◌}
use goshield.Go.Errors.{Error, Result, ok, err, is_ok, wrapf, external}
use goshield.Go.World.{Env, World, Exec, continue, ◌>>=◌, lift, call, wrapping}
use goshield.Go.World.Steps.{Steps}

-- From every world the action fails, and it leaves the store as it is.
pub record Refuses {M S A : Type 0} (m : Exec (World M S) A) : Type 0 where
  pub fails : (w : World M S) → is_ok (m w).0 ≡ false
  pub keeps : (w : World M S) → (m w).1.store ≡ w.store

failed_wrapf :
    {A : Type 0} (context : String) (r : Result A)
    → is_ok r ≡ false
    → is_ok (wrapf context r) ≡ false
failed_wrapf context (ok a) e = e
failed_wrapf context (err x) e = refl

module _ {M S A : Type 0} where
  pub Refuses-lift : (e : Error) → Refuses {M = M} {S = S} {A = A} (lift (err e))
  unfolding lift
  Refuses-lift e = record { fails = λ w. refl; keeps = λ w. refl }

  pub Refuses-call : (env : Env) (m : Exec (World M S) A) → Refuses m → Refuses (call env m)
  unfolding call
  Refuses-call env m k = record {
    fails = λ w. fail_at w (env.fails w.calls);
    keeps = λ w. keep_at w (env.fails w.calls);
  }
    where
      fail_at :
          (w : World M S) (b : Bool)
          → is_ok
              (if b
                then (err (external w.calls), record w { calls = w.calls + 1 })
                else m (record w { calls = w.calls + 1 })).0
            ≡ false
      fail_at w true = refl
      fail_at w false = k.fails _

      keep_at :
          (w : World M S) (b : Bool)
          → (if b
              then (err (external w.calls), record w { calls = w.calls + 1 })
              else m (record w { calls = w.calls + 1 })).1.store
            ≡ w.store
      keep_at w true = refl
      keep_at w false = k.keeps _

  pub Refuses-wrapping :
      (context : String) (m : Exec (World M S) A) → Refuses m → Refuses (wrapping context m)
  unfolding wrapping
  Refuses-wrapping context m k = record {
    fails = λ w. failed_wrapf context (m w).0 (k.fails w);
    keeps = k.keeps;
  }

  module _ {B : Type 0} (m : Exec (World M S) A) (f : A → Exec (World M S) B) where
    stopped :
        (r : Result A) (v : World M S)
        → is_ok r ≡ false
        → (is_ok (continue r f v).0 ≡ false) × ((continue r f v).1.store ≡ v.store)
    stopped (ok a) v e = absurd (ground arith)
    stopped (err x) v e = (refl, refl)

    -- An action that begins with a refused one is refused.
    pub Refuses-first : Refuses m → Refuses (m >>= f)
    unfolding ◌>>=◌
    Refuses-first k = record {
      fails = λ w. (stopped (m w).0 (m w).1 (k.fails w)).0;
      keeps = λ w. (stopped (m w).0 (m w).1 (k.fails w)).1 ∙ k.keeps w;
    }

    refused_on :
        ((a : A) → Refuses (f a))
        → (r : Result A) (v : World M S)
        → (is_ok (continue r f v).0 ≡ false) × ((continue r f v).1.store ≡ v.store)
    refused_on k (ok a) v = ((k a).fails v, (k a).keeps v)
    refused_on k (err x) v = (refl, refl)

    -- An action is refused if what follows always is, and its first part leaves the store.
    pub Refuses-next : Steps ◌≡◌ m → ((a : A) → Refuses (f a)) → Refuses (m >>= f)
    unfolding ◌>>=◌
    Refuses-next s k = record {
      fails = λ w. (refused_on k (m w).0 (m w).1).0;
      keeps = λ w. (refused_on k (m w).0 (m w).1).1 ∙ sym (s.from w);
    }
