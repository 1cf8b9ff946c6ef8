-- ===== src/Inventory/Repository/Moves.antt =====
-- goerp/internal/inventory/repository/inventory_repo.go: the table `stock_moves`.
use goshield.Prelude.{
  ℕ, String, Bool, ◌&&◌, ◌||◌, Option, none, some, List, [], ◌∷◌, ◌++◌, map, ◌==◌, ◌-◌, ◌*◌, find,
  select, take, drop, length, if◌then◌else◌,
}
use goshield.Go.Errors.{ok}
use goshield.Go.Float.{Float64, Arithmetic}
use goshield.Go.Text.{Text}
use goshield.Go.World.{
  Env, Exec, ◌>>=◌, ◌>>◌, pure, call, attempt, wrapping, reads, writes, new_uuid, time_now,
}
use goshield.Inventory.Domain.{StockMove, StockLocation, ListStockMovesFilter}
use goshield.Inventory.Repository.{Tables, Inventory, Sql, label, or_default}
use goshield.Go.Errors.{or_zero}

-- A move with what the query joins to it.
pub record StockMoveView (F : Float64) : Type 0 where
  pub move : StockMove F
  pub product_name : Text
  pub product_sku : Text
  pub from_location_name : Text
  pub to_location_name : Text
  pub total_cost : F.Num

module _ {F : Float64} (env : Env) (sql : Sql F) where
  abbrev state_or_done : String → String
  state_or_done s = if s == "" then "done" else s

  abbrev as_day : Option ℕ → Option ℕ
  as_day none = none
  as_day (some t) = some (sql.day t)

  -- The columns of the INSERT: a move that is done is done when it is created.
  unfoldable pub move_row : StockMove F → StockMove F
  move_row m = record m {
    expiry_date = as_day m.expiry_date;
    done_at = if m.state == "done" then some m.created_at else none;
  }

  unfoldable pub create_stock_move : StockMove F → Exec (Inventory F) (StockMove F)
  unfolding move_row
  create_stock_move m = do
    i ← new_uuid env
    now ← time_now env
    let made = record m { id = i; created_at = now; state = state_or_done m.state }
    call env (writes (λ s. record s { moves = s.moves ++ move_row made ∷ [] }))
    pure made

  abbrev pub is_listed_move : ListStockMovesFilter → StockMove F → Bool
  is_listed_move f m =
      m.tenant_id == f.tenant_id
      && (f.product_id == "" || m.product_id == f.product_id)
      && (f.move_type == "" || m.move_type == f.move_type)
      && (f.state == "" || m.state == f.state)
      && (f.date_from == "" || sql.since f.date_from m.created_at)
      && (f.date_to == "" || sql.until f.date_to m.created_at)

  abbrev location_name : String → List StockLocation → Text
  location_name i ls = elim (find (λ l. l.id == i) ls) [ some l ↦ l.name | none ↦ [] ]

  abbrev move_view : Arithmetic F → Tables F → StockMove F → StockMoveView F
  move_view A s m =
      let p = find (λ p. p.id == m.product_id) s.products in
      record {
        move = m;
        product_name = elim p [ some q ↦ label q | none ↦ [] ];
        product_sku = elim p [ some q ↦ q.sku | none ↦ [] ];
        from_location_name = location_name m.from_location_id s.locations;
        to_location_name = location_name m.to_location_id s.locations;
        total_cost = A.mul m.quantity m.unit_cost;
      }

  unfoldable pub list_stock_moves :
      Arithmetic F → ListStockMovesFilter → Exec (Inventory F) (List (StockMoveView F) × ℕ)
  list_stock_moves A f = do
    moves ← wrapping "list stock moves" (
        call env (
          reads (λ s. ok (
            map (move_view A s) (
              take (or_default 50 f.page_size) (
                drop ((or_default 1 f.page - 1) * or_default 50 f.page_size)
                  (sql.order_moves (select (is_listed_move f) s.moves))))))))
    total ← attempt (call env (reads (λ s. ok (length (select (is_listed_move f) s.moves)))))
    pure (moves, or_zero total)
