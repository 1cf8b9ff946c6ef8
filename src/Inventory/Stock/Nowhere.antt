-- ===== src/Inventory/Stock/Nowhere.antt =====
-- goerp/internal/inventory/usecase/inventory_usecase.go: an adjustment that names no location.
use goshield.Prelude.{
  sym, ap₂, if◌then◌else◌, String, ◌≡◌, refl, true, false, Bool, ◌==◌, eq_iff, inl, inr, Bool-cases,
}
use goshield.Go.Errors.{Result, ok, err}
use goshield.Go.Float.{Float64, Arithmetic, zero_float}
use goshield.Go.World.{Env}
use goshield.Inventory.Domain.{StockMove, StockAdjustment}
use goshield.Inventory.Repository.{Inventory, Sql, current_stock}
use goshield.Inventory.Checks.{is_positive}
use goshield.Inventory.Usecase.{Draws}
use goshield.Inventory.Stock.{adjust_stock, adjustment}
use goshield.Inventory.Stock.Ledger.{IsBooking, Adjusts, adjust_stock-Adjusts}

module _ {F : Float64} (A : Arithmetic F)
    (adds_zero : (x : F.Num) → A.add x (zero_float F) ≡ x) where
  unplaced-still :
      (m : StockMove F) (w w' : Inventory F) (p : String)
      → m.from_location_id ≡ ""
      → m.to_location_id ≡ ""
      → IsBooking A m w w'
      → current_stock A p w'.store.moves ≡ current_stock A p w.store.moves
  unfolding current_stock
  unplaced-still m w w' p from to booked = elim (Bool-cases (m.product_id == p)) [
    | inl same ↦ rw (sym ((eq_iff m.product_id p).0 same)) (
        rw (current_stock, booked.arrives, booked.leaves)
          (rw (from, to) (ap₂ A.sub (adds_zero _) (adds_zero _))))
    | inr other ↦ rw (current_stock, (booked.others p other).0, (booked.others p other).1) refl
  ]

  -- An adjustment without a location leaves the stock of every product as it is, whether it
  -- succeeds or not, if adding 0 changes no number.
  pub adjust_stock-nowhere :
      (env : Env) (sql : Sql F) (draws : Draws) (adj : StockAdjustment F) (tenant user : String)
      (w : Inventory F) (p : String)
      → adj.location_id ≡ ""
      → current_stock A p (adjust_stock A env sql draws adj tenant user w).1.store.moves
        ≡ current_stock A p w.store.moves
  unfolding adjustment
  adjust_stock-nowhere env sql draws adj tenant user w p nowhere =
      by_outcome (adjust_stock A env sql draws adj tenant user w)
        (adjust_stock-Adjusts A env sql draws adj tenant user w)
    where
      unplaced : (b : Bool) → (if b then "" else adj.location_id) ≡ ""
      unplaced true = refl
      unplaced false = nowhere

      unplaced' : (b : Bool) → (if b then adj.location_id else "") ≡ ""
      unplaced' true = nowhere
      unplaced' false = refl

      by_outcome :
          (r : Result (Unit {0}) × Inventory F)
          → Adjusts A env sql draws adj tenant user w r
          → current_stock A p r.1.store.moves ≡ current_stock A p w.store.moves
      by_outcome (err e, w') same = rw same refl
      by_outcome (ok done, w') (drawn, now, booked) =
          unplaced-still (adjustment A env sql draws drawn now tenant user adj) w w' p
            (unplaced (is_positive F adj.quantity)) (unplaced' (is_positive F adj.quantity)) booked
