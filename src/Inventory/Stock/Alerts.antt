-- ===== src/Inventory/Stock/Alerts.antt =====
-- goerp/internal/inventory/usecase/inventory_usecase.go: from a move out of stock to the alert.
use goshield.Prelude.{
  String, ◌≡◌, refl, Bool, true, false, some, List, [], ◌∷◌, ◌++◌, find, length, ◌+◌, ◌||◌, ◌==◌,
}
use goshield.Go.Errors.{Result, ok, err}
use goshield.Go.Float.{Float64, Arithmetic}
use goshield.Go.World.{Env, ◌>>=◌}
use goshield.Inventory.Domain.{Product, StockMove, stock_low}
use goshield.Inventory.Repository
use goshield.Inventory.Repository.{Inventory, Sql, view, is_product, name_en}
use goshield.Inventory.Repository.Moves
use goshield.Inventory.Checks.{check_move}
use goshield.Inventory.Usecase.{Draws}
use goshield.Inventory.Stock.{create_stock_move, check_reorder_alert, needs_alert, alert}
use goshield.Inventory.Stock.Journal.{pick, run, move, check, apply}

pick-last : {A : Type 0} (xs : List A) (x : A) → pick (length xs) (xs ++ x ∷ []) ≡ some (x, xs)
pick-last [] x = refl
pick-last (y ∷ xs) x = rw (pick-last xs x) refl

module _ {F : Float64} (A : Arithmetic F) (env : Env) (sql : Sql F) (draws : Draws) where
  alerts :
      (w : Inventory F) (i tenant : String) (p : Product F)
      → env.fails w.calls ≡ false
      → find (is_product i tenant) w.store.products ≡ some p
      → needs_alert (view A w.store p) ≡ true
      → (check_reorder_alert A env sql draws i tenant w).1.published
        ≡ w.published
          ++ stock_low i
              (name_en p.name)
              p.sku
              (view A w.store p).current_stock
              p.reorder_point
              tenant
            ∷ []
  unfolding check_reorder_alert alert Repository.get_product ◌>>=◌
  alerts w i tenant p good hit due = rw (good, hit) (rw due refl)

  -- A move out of stock that is recorded leaves a check of its product waiting, behind the others.
  waits :
      (m made : StockMove F) (w : Inventory F)
      → (m.move_type == "out" || m.move_type == "scrap") ≡ true
      → (create_stock_move A env sql draws m w).0 ≡ ok made
      → (create_stock_move A env sql draws m w).1.store.checks
        ≡ w.store.checks ++ (m.product_id, m.tenant_id) ∷ []
  unfolding create_stock_move Moves.create_stock_move ◌>>=◌
  waits m made w out = at (check_move m) (env.fails (w.calls + 1)) refl refl
    where
      at :
          (r : Result (Unit {0})) (b : Bool)
          → check_move m ≡ r
          → env.fails (w.calls + 1) ≡ b
          → (create_stock_move A env sql draws m w).0 ≡ ok made
          → (create_stock_move A env sql draws m w).1.store.checks
            ≡ w.store.checks ++ (m.product_id, m.tenant_id) ∷ []
      at (err e) b checked down = rw checked (λ e. cc)
      at (ok c) true checked down = rw (checked, down) (λ e. cc)
      at (ok c) false checked down = rw (checked, down) (λ e. rw out refl)

  -- If a move of type out or scrap is recorded, the search for its product is answered, and the
  -- product then has a positive reorder point that its stock does not exceed, the goroutine that the
  -- move has started, run next, publishes the alert.
  pub out_move-alerts :
      (m made : StockMove F) (w : Inventory F) (p : Product F)
      → (m.move_type == "out" || m.move_type == "scrap") ≡ true
      → (create_stock_move A env sql draws m w).0 ≡ ok made
      → let w' = (create_stock_move A env sql draws m w).1 in
        env.fails w'.calls ≡ false
        → find (is_product m.product_id m.tenant_id) w'.store.products ≡ some p
        → F.gt p.reorder_point (F.decimal 0 0) ≡ true
        → F.ge p.reorder_point (view A w'.store p).current_stock ≡ true
        → (run A env sql draws (move m ∷ check (length w.store.checks) ∷ []) w).published
          ≡ w'.published
            ++ stock_low m.product_id
                (name_en p.name)
                p.sku
                (view A w'.store p).current_stock
                p.reorder_point
                m.tenant_id
              ∷ []
  unfolding apply view
  out_move-alerts m made w p out done good hit positive low =
      let w' : Inventory F = (create_stock_move A env sql draws m w).1 in
      rw (waits m made w out done, pick-last w.store.checks (m.product_id, m.tenant_id))
        (alerts (record w' { store = record (w'.store) { checks = w.store.checks } }) m.product_id
          m.tenant_id p good hit (rw (positive, low) refl))
