-- ===== src/Inventory/Repository/Reports.antt =====
-- goerp/internal/inventory/repository/inventory_repo.go: the stock summary and the statistics, each a
-- query over the products and the moves.
pub mod Agreement
use goshield.Prelude.{ℕ, String, Bool, ◌&&◌, List, map, ◌==◌, select, length, if◌then◌else◌}
use goshield.Go.Errors.{err, ok}
use goshield.Go.Float.{Float64, Arithmetic, zero_float}
use goshield.Go.World.{Env, Exec, ◌>>=◌, pure, call, attempt, reads}
use goshield.Inventory.Domain.{Product, StockMove, StockSummary}
use goshield.Inventory.Repository.{
  Tables, Inventory, Sql, is_not_null, label, category_name, current_stock,
}
use goshield.Go.Float.{sum}
use goshield.Go.Errors.{or_zero}

-- `InventoryStats`, as far as it counts; a query that fails leaves its field at 0.
pub record InventoryStats (F : Float64) : Type 0 where
  pub total_products : ℕ
  pub active_products : ℕ
  pub total_categories : ℕ
  pub total_warehouses : ℕ
  pub low_stock_count : ℕ
  pub out_of_stock : ℕ
  pub total_stock_value : F.Num
  pub moves_this_month : ℕ
  pub incoming_value : F.Num
  pub outgoing_value : F.Num

module _ {F : Float64} (A : Arithmetic F) where
  abbrev pub is_tracked : String → Product F → Bool
  is_tracked tenant p = p.tenant_id == tenant && p.is_active && p.track_inventory

  unfoldable pub summary : Tables F → Product F → StockSummary F
  unfolding current_stock
  summary s p =
      let stock = current_stock A p.id s.moves in
      record {
        product_id = p.id;
        product_name = label p;
        sku = p.sku;
        category_name = category_name p.category_id s.categories;
        uom = p.uom;
        total_stock = stock;
        available_qty = stock;
        unit_cost = p.cost_price;
        stock_value = A.mul stock p.cost_price;
        min_level = p.min_stock_level;
        reorder_point = p.reorder_point;
        is_low = F.gt p.min_stock_level (zero_float F) && F.ge p.min_stock_level stock;
        needs_reorder = F.gt p.reorder_point (zero_float F) && F.ge p.reorder_point stock;
      }

  -- The summaries that the query finds, before they are put in order.
  unfoldable pub summaries : String → Tables F → List (StockSummary F)
  unfolding summary
  summaries tenant s = map (summary s) (select (is_tracked tenant) s.products)

  -- The stock of the subqueries, which join only the moves that are done.
  abbrev pub is_done_move_of : String → StockMove F → Bool
  is_done_move_of product m = m.product_id == product && m.state == "done"

  abbrev pub arriving_done : StockMove F → F.Num
  arriving_done m = if is_not_null m.to_location_id then m.quantity else zero_float F

  abbrev pub leaving_done : StockMove F → F.Num
  leaving_done m = if is_not_null m.from_location_id then m.quantity else zero_float F

  unfoldable pub done_stock : String → List (StockMove F) → F.Num
  done_stock product moves =
      let done = select (is_done_move_of product) moves in
      A.sub (sum A (map arriving_done done)) (sum A (map leaving_done done))

  unfoldable pub counts_low : String → List (StockMove F) → Product F → Bool
  unfolding done_stock
  counts_low tenant moves p =
      (is_tracked tenant p && F.gt p.min_stock_level (zero_float F))
      && F.ge p.min_stock_level (done_stock p.id moves)

  unfoldable pub low_stock_count : String → Tables F → ℕ
  unfolding counts_low
  low_stock_count tenant s = length (select (counts_low tenant s.moves) s.products)

  unfoldable pub out_of_stock : String → Tables F → ℕ
  unfolding done_stock
  out_of_stock tenant s = length (
      select (λ p. is_tracked tenant p && F.ge (zero_float F) (done_stock p.id s.moves)) s.products)

  total_value : String → Tables F → F.Num
  unfolding current_stock
  total_value tenant s = sum A (
      map (λ p. A.mul p.cost_price (current_stock A p.id s.moves))
        (select (λ p. p.tenant_id == tenant && p.is_active) s.products))

  month_value : Sql F → String → String → Tables F → F.Num
  month_value sql type tenant s = sum A (
      map (λ m. A.mul m.quantity m.unit_cost)
        (select
          (λ m.
            m.tenant_id == tenant
            && m.move_type == type
            && m.state == "done"
            && sql.this_month m.created_at)
          s.moves))

module _ {F : Float64} (A : Arithmetic F) (env : Env) (sql : Sql F) where
  -- `order` is `ORDER BY total_stock ASC`.
  unfoldable pub get_stock_summary :
      (List (StockSummary F) → List (StockSummary F))
      → String
      → Exec (Inventory F) (List (StockSummary F))
  unfolding summaries
  get_stock_summary order tenant = call env (reads (λ s. ok (order (summaries A tenant s))))

  count : (Tables F → ℕ) → Exec (Inventory F) ℕ
  count f = do r ← attempt (call env (reads (λ s. ok (f s)))); pure (or_zero r)

  total : (Tables F → F.Num) → Exec (Inventory F) F.Num
  total f w =
      let r = call env (reads (λ s. ok (f s))) w in
      (ok (elim r.0 [ ok x ↦ x | err e ↦ zero_float F ]), r.1)

  unfoldable pub get_inventory_stats : String → Exec (Inventory F) (InventoryStats F)
  unfolding count total low_stock_count out_of_stock total_value month_value
  get_inventory_stats tenant = do
    products ← count (λ s. length (select (λ p. p.tenant_id == tenant) s.products))
    active ← count (λ s. length (select (λ p. p.tenant_id == tenant && p.is_active) s.products))
    categories ← count (λ s. length (select (λ c. c.tenant_id == tenant) s.categories))
    warehouses ←
        count (λ s. length (select (λ h. h.tenant_id == tenant && h.is_active) s.warehouses))
    low ← count (low_stock_count A tenant)
    out ← count (out_of_stock A tenant)
    value ← total (total_value A tenant)
    moves ←
        count
          (λ s. length (select (λ m. m.tenant_id == tenant && sql.this_month m.created_at) s.moves))
    incoming ← total (month_value A sql "in" tenant)
    outgoing ← total (month_value A sql "out" tenant)
    pure (record {
      total_products = products;
      active_products = active;
      total_categories = categories;
      total_warehouses = warehouses;
      low_stock_count = low;
      out_of_stock = out;
      total_stock_value = value;
      moves_this_month = moves;
      incoming_value = incoming;
      outgoing_value = outgoing;
    })
