-- ===== src/Inventory/Requests/Rules.antt =====
-- goerp/internal/inventory: how the actions of its own move the store.
use goshield.Prelude.{ℕ, Bool, true, false, if◌then◌else◌}
use goshield.Go.Errors.{Result, ok, err, external}
use goshield.Go.Float.{Float64}
use goshield.Go.World.Steps.{Preorder, Steps}
use goshield.Inventory.Domain.{Event}
use goshield.Inventory.Repository.{Tables, Inventory, unless_taken}
use goshield.Inventory.Usecase.{Draws, random}

module _ {F : Float64} {R : Tables F → Tables F → Type 0} (o : Preorder R) where
  pub unless_taken-Steps :
      (taken : Tables F → Bool) (f : Tables F → Tables F)
      → ((s : Tables F) → R s (f s))
      → Steps R (unless_taken taken f)
  unless_taken-Steps taken f k = record { from = λ w. at w (taken w.store) }
    where
      at :
          (w : Inventory F) (b : Bool)
          → R w.store
              (if◌then◌else◌ {A = Result (Unit {0}) × Inventory F} b
                (err (external w.calls), w)
                (ok tt, record w { store = f w.store })).1.store
      at w true = o.same w.store
      at w false = k w.store

  pub random-Steps : (draws : Draws) (n : ℕ) → Steps {M = Event F} R (random draws n)
  random-Steps draws n = record { from = λ w. o.same w.store }

pub ruleset write_rules = (unless_taken-Steps, random-Steps)
