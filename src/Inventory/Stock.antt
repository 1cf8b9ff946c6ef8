-- ===== src/Inventory/Stock.antt =====
-- goerp/internal/inventory/usecase/inventory_usecase.go: stock moves, adjustments and the alert for a
-- reorder. A goroutine that is started is kept in the store until it runs.
pub mod Ledger
pub mod Nowhere
pub mod Alerts
pub mod Journal
use goshield.Prelude.{
  ℕ, String, Bool, ◌&&◌, ◌||◌, none, some, List, [], ◌∷◌, ◌++◌, ◌==◌, ltb, if◌then◌else◌,
}
use goshield.Go.Errors.{Result, ok, err, refuse_if}
use goshield.Go.Float.{Float64, Arithmetic, zero_float}
use goshield.Go.Text.{codes, is_empty}
use goshield.Go.World.{
  Env, Exec, ◌>>=◌, ◌>>◌, pure, lift, attempt, wrapping, writes, publish, time_now,
}
use goshield.Inventory.Domain.{
  ProductView, StockMove, StockAdjustment, ListStockMovesFilter, stock_moved, stock_low,
}
use goshield.Inventory.Codes.{generate_move_reference}
use goshield.Inventory.Repository
use goshield.Inventory.Repository.{Inventory, Sql, name_en}
use goshield.Inventory.Repository.Moves
use goshield.Inventory.Repository.Moves.{StockMoveView}
use goshield.Inventory.Checks.{check_move, check_adjustment, is_positive, is_negative}
use goshield.Inventory.Usecase.{Draws, random}

-- The stock is at or below the reorder point, and there is one.
abbrev pub needs_alert : {F : Float64} → ProductView F → Bool
needs_alert {F} v =
    is_positive F v.product.reorder_point && F.ge v.product.reorder_point v.current_stock

module _ {F : Float64} (A : Arithmetic F) (env : Env) (sql : Sql F) (draws : Draws) where
  unfoldable pub list_stock_moves :
      ListStockMovesFilter → Exec (Inventory F) (List (StockMoveView F) × ℕ)
  list_stock_moves f = Moves.list_stock_moves env sql A (record f {
    page = if ltb f.page 1 then 1 else f.page;
    page_size = if ltb f.page_size 1 || ltb 200 f.page_size then 50 else f.page_size;
  })

  -- `go u.checkReorderAlert(…)` if `b`
  start_check : Bool → String → String → Exec (Inventory F) (Unit {0})
  start_check b product tenant =
      writes (λ s. record s { checks = s.checks ++ (if b then (product, tenant) ∷ [] else []) })

  -- A checked move as it goes to the repository.
  abbrev pub booked : ℕ → ℕ → StockMove F → StockMove F
  booked drawn now m = record m {
    reference =
        if is_empty m.reference
        then generate_move_reference drawn (draws.compact_date now) m.move_type
        else m.reference;
    state = "done";
    done_at = some now;
  }

  unfoldable pub create_stock_move : StockMove F → Exec (Inventory F) (StockMove F)
  unfolding start_check
  create_stock_move m = do
    lift (check_move m)
    drawn ← random draws 100000
    now ← time_now env
    made ← Moves.create_stock_move env sql (booked drawn now m)
    publish (stock_moved made)
    start_check (m.move_type == "out" || m.move_type == "scrap") m.product_id m.tenant_id
    pure made

  abbrev abs : F.Num → F.Num
  abs x = if is_negative F x then A.neg x else x

  -- The move of an adjustment: to the location if stock is added, from it if it is removed.
  unfoldable pub adjustment : ℕ → ℕ → String → String → StockAdjustment F → StockMove F
  adjustment drawn now tenant user adj = record {
    id = "";
    tenant_id = tenant;
    product_id = adj.product_id;
    variant_id = "";
    from_location_id = if is_positive F adj.quantity then "" else adj.location_id;
    to_location_id = if is_positive F adj.quantity then adj.location_id else "";
    quantity = abs adj.quantity;
    unit_cost = zero_float F;
    batch_number = "";
    serial_number = "";
    expiry_date = none;
    move_type = "adjust";
    reference = generate_move_reference drawn (draws.compact_date now) "adjust";
    state = "done";
    notes = codes "Reason: " ++ adj.reason ++ codes ". " ++ adj.notes;
    created_by = user;
    created_at = 0;
    done_at = some now;
  }

  unfoldable pub adjust_stock : StockAdjustment F → String → String → Exec (Inventory F) (Unit {0})
  unfolding adjustment start_check
  adjust_stock adj tenant user = do
    lift (check_adjustment A tenant adj)
    wrapping "product not found" (Repository.get_product A env adj.product_id tenant)
    now ← time_now env
    drawn ← random draws 100000
    made ← Moves.create_stock_move env sql (adjustment drawn now tenant user adj)
    publish (stock_moved made)
    start_check (is_negative F adj.quantity) adj.product_id tenant

  unfoldable pub alert : String → String → Result (ProductView F) → Exec (Inventory F) (Unit {0})
  alert product tenant (err e) = pure tt
  alert product tenant (ok v) =
      if needs_alert v
      then publish (
          stock_low product (name_en v.product.name) v.product.sku v.current_stock
            v.product.reorder_point tenant)
      else pure tt

  unfoldable pub check_reorder_alert : String → String → Exec (Inventory F) (Unit {0})
  unfolding alert
  check_reorder_alert product tenant = do
    found ← attempt (Repository.get_product A env product tenant)
    alert product tenant found
