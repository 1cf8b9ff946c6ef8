-- ===== src/Inventory/Stock/Ledger.antt =====
-- goerp/internal/inventory: what a stock move does to the stock that the queries compute.
use goshield.Prelude.{
  ◌+◌, String, ◌≡◌, refl, ◌&&◌, ◌+◌, Bool, true, false, ◌∷◌, ◌++◌, List, [], ◌==◌, if◌then◌else◌,
  map, select, select-append, map-append, eq_refl,
}
use mathlib.Core.List.{append-nil}
use goshield.Go.Errors.{Result, ok, err}
use goshield.Go.Float.{Float64, Arithmetic, zero_float}
use goshield.Go.World.{Env, ◌>>=◌}
use goshield.Inventory.Domain.{ProductView, StockAdjustment, StockMove}
use goshield.Inventory.Repository.{
  Inventory, Sql, is_not_null, is_move_of, arriving, leaving, received, issued,
}
use goshield.Inventory.Repository
use goshield.Inventory.Repository.Moves
use goshield.Inventory.Repository.Moves.{move_row}
use goshield.Inventory.Usecase.{Draws}
use goshield.Inventory.Stock.{
  check_adjustment, adjustment, ℕ, adjust_stock, check_move, create_stock_move,
}
use goshield.Go.Float.{sum_from, sum_from-append}

module _ {F : Float64} (A : Arithmetic F) where
  -- The sum of a column over the moves of a product, when a move is appended.
  column-append :
      (f : StockMove F → F.Num) (p : String) (ms : List (StockMove F)) (m : StockMove F)
      → sum_from A (zero_float F) (map f (select (is_move_of p) (ms ++ m ∷ []))) ≡ (
          let old = sum_from A (zero_float F) (map f (select (is_move_of p) ms)) in
          if is_move_of p m then A.add old (f m) else old)
  column-append f p ms m =
      rw (select-append (is_move_of p) ms m, map-append f) (added (is_move_of p m))
    where
      added :
          (b : Bool)
          → sum_from A
              (zero_float F)
              (map f (select (is_move_of p) ms) ++ map f (if b then m ∷ [] else []))
            ≡ (let old = sum_from A (zero_float F) (map f (select (is_move_of p) ms)) in
                if b then A.add old (f m) else old)
      added true = sum_from-append A (zero_float F) (map f (select (is_move_of p) ms)) (f m)
      added false = rw (append-nil (map f (select (is_move_of p) ms))) refl

  pub received-append :
      (p : String) (ms : List (StockMove F)) (m : StockMove F)
      → received A p (ms ++ m ∷ [])
        ≡ (if is_move_of p m then A.add (received A p ms) (arriving m) else received A p ms)
  unfolding received
  received-append p ms m = column-append arriving p ms m

  pub issued-append :
      (p : String) (ms : List (StockMove F)) (m : StockMove F)
      → issued A p (ms ++ m ∷ [])
        ≡ (if is_move_of p m then A.add (issued A p ms) (leaving m) else issued A p ms)
  unfolding issued
  issued-append p ms m = column-append leaving p ms m

  -- What a request to move stock has done, by how it ended.
  pub record IsBooking (m : StockMove F) (w w' : Inventory F) : Type 0 where
    pub arrives :
        received A m.product_id w'.store.moves
        ≡ A.add
            (received A m.product_id w.store.moves)
            (if is_not_null m.to_location_id then m.quantity else zero_float F)
    pub leaves :
        issued A m.product_id w'.store.moves
        ≡ A.add
            (issued A m.product_id w.store.moves)
            (if is_not_null m.from_location_id then m.quantity else zero_float F)
    pub others :
        (p : String)
        → (m.product_id == p) ≡ false
        → (received A p w'.store.moves ≡ received A p w.store.moves)
          × (issued A p w'.store.moves ≡ issued A p w.store.moves)

  abbrev pub Books : StockMove F → Inventory F → Result (StockMove F) × Inventory F → Type 0
  Books m w (err e, w') = w'.store ≡ w.store
  Books m w (ok made, w') = IsBooking m w w'

when_done {ℓ} :
    {B : Type ℓ} (b : Bool) (x y : B) → (if b && true then x else y) ≡ (if b then x else y)
when_done true x y = refl
when_done false x y = refl

module _ {F : Float64} (A : Arithmetic F) where
  -- A done move at the end of the table books what its locations and its quantity say.
  pub appended-IsBooking :
      (m row : StockMove F) (w w' : Inventory F)
      → w'.store.moves ≡ w.store.moves ++ row ∷ []
      → row.product_id ≡ m.product_id
      → row.to_location_id ≡ m.to_location_id
      → row.from_location_id ≡ m.from_location_id
      → row.quantity ≡ m.quantity
      → row.state ≡ "done"
      → IsBooking A m w w'
  appended-IsBooking m row w w' grown product to from quantity done = record {
    arrives =
        rw (grown, received-append A m.product_id w.store.moves row)
          (rw (product, to, quantity, done, eq_refl m.product_id)
            (rw (when_done (is_not_null m.to_location_id) m.quantity (zero_float F)) refl));
    leaves =
        rw (grown, issued-append A m.product_id w.store.moves row)
          (rw (product, from, quantity, done, eq_refl m.product_id)
            (rw (when_done (is_not_null m.from_location_id) m.quantity (zero_float F)) refl));
    others = λ p other.
        rw (grown, received-append A p w.store.moves row, issued-append A p w.store.moves row)
          (rw (product, other) (refl, refl));
  }

module _ {F : Float64} (A : Arithmetic F) (env : Env) (sql : Sql F) (draws : Draws) where
  -- A move that is recorded adds its quantity to what its product has received, if it has a
  -- destination, and to what it has issued, if it has a source; no other product changes. A move
  -- that is refused, or whose INSERT fails, changes no table.
  pub create_stock_move-Books :
      (m : StockMove F) (w : Inventory F) → Books A m w (create_stock_move A env sql draws m w)
  unfolding create_stock_move Moves.create_stock_move move_row ◌>>=◌
  create_stock_move-Books m w = at (check_move m) (env.fails (w.calls + 1)) refl refl
    where
      at :
          (r : Result (Unit {0})) (b : Bool)
          → check_move m ≡ r
          → env.fails (w.calls + 1) ≡ b
          → Books A m w (create_stock_move A env sql draws m w)
      at (err e) b checked down = rw checked refl
      at (ok c) true checked down = rw checked (rw down refl)
      at (ok c) false checked down =
          rw checked (rw down (appended-IsBooking A m _ w _ refl refl refl refl refl refl))

  pub get_product-world :
      (i tenant : String) (w : Inventory F)
      → (Repository.get_product A env i tenant w).1 ≡ record w { calls = w.calls + 1 }
  unfolding Repository.get_product ◌>>=◌
  get_product-world i tenant w = at (env.fails w.calls) refl
    where
      at :
          (b : Bool)
          → env.fails w.calls ≡ b
          → (Repository.get_product A env i tenant w).1 ≡ record w { calls = w.calls + 1 }
      at true down = rw down refl
      at false down = rw down refl

  abbrev pub Adjusts :
      StockAdjustment F → String → String → Inventory F → Result (Unit {0}) × Inventory F → Type 0
  Adjusts adj tenant user w (err e, w') = w'.store ≡ w.store
  Adjusts adj tenant user w (ok done, w') =
      (drawn : ℕ) × (now : ℕ) × IsBooking A (adjustment A env sql draws drawn now tenant user adj) w
        w'

  -- An adjustment that succeeds books its move, and one that is refused or fails changes no table.
  pub adjust_stock-Adjusts :
      (adj : StockAdjustment F) (tenant user : String) (w : Inventory F)
      → Adjusts adj tenant user w (adjust_stock A env sql draws adj tenant user w)
  unfolding adjust_stock Moves.create_stock_move move_row ◌>>=◌ adjustment
  adjust_stock-Adjusts adj tenant user w =
      at (check_adjustment A tenant adj) (Repository.get_product A env adj.product_id tenant w).0
        (env.fails (w.calls + 1 + 1)) refl refl refl
    where
      at :
          (r : Result (Unit {0})) (found : Result (ProductView F)) (b : Bool)
          → check_adjustment A tenant adj ≡ r
          → (Repository.get_product A env adj.product_id tenant w).0 ≡ found
          → env.fails (w.calls + 1 + 1) ≡ b
          → Adjusts adj tenant user w (adjust_stock A env sql draws adj tenant user w)
      at (err e) found b checked e' down = rw checked refl
      at (ok c) (err e) b checked e' down =
          rw (checked, e', get_product-world adj.product_id tenant w) refl
      at (ok c) (ok v) true checked e' down =
          rw (checked, e', get_product-world adj.product_id tenant w, down) refl
      at (ok c) (ok v) false checked e' down =
          rw (checked, e', get_product-world adj.product_id tenant w, down)
            (
              draws.intn (w.calls + 1) 100000,
              env.now (w.calls + 1),
              appended-IsBooking A
                  (adjustment A env sql draws (draws.intn (w.calls + 1) 100000)
                    (env.now (w.calls + 1)) tenant user adj)
                  _ w _ refl refl refl refl refl refl,
            )
