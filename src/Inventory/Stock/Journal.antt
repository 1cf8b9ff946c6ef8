-- ===== src/Inventory/Stock/Journal.antt =====
-- goerp/internal/inventory/usecase/inventory_usecase.go: the operations on stock in any order, the
-- goroutines of the reorder check among them, and what they announce.
use goshield.Prelude.{
  ℕ, zero, suc, String, ◌≡◌, refl, Bool, true, false, Option, none, some, List, [], ◌∷◌, ◌++◌, map,
  map-append, ◌+◌,
}
use mathlib.Core.List.{append-nil}
use goshield.Go.Errors.{Result, ok, err}
use goshield.Go.Float.{Float64, Arithmetic}
use goshield.Go.World.{Env, ◌>>=◌}
use goshield.Inventory.Domain.{
  StockMove, StockAdjustment, Event, ProductView, stock_moved, stock_low,
}
use goshield.Inventory.Repository
use goshield.Inventory.Repository.{Inventory, Sql}
use goshield.Inventory.Repository.Moves
use goshield.Inventory.Checks.{check_move, check_adjustment}
use goshield.Inventory.Usecase.{Draws}
use goshield.Inventory.Stock.{
  needs_alert, alert, create_stock_move, adjust_stock, check_reorder_alert,
}
use goshield.Inventory.Stock.Ledger.{get_product-world}

-- `check n` runs the n-th goroutine that waits, if there is one.
pub data Op (F : Float64) : Type 0 where
  move : StockMove F → Op F
  adjust : StockAdjustment F → String → String → Op F
  check : ℕ → Op F

-- An element and the rest.
abbrev pub pick {ℓ} : {A : Type ℓ} → ℕ → List A → Option (A × List A)
pick n [] = none
pick zero (x ∷ xs) = some (x, xs)
pick (suc n) (x ∷ xs) = elim (pick n xs) [ none ↦ none | some p ↦ some (p.0, x ∷ p.1) ]

module _ {F : Float64} (A : Arithmetic F) (env : Env) (sql : Sql F) (draws : Draws) where
  abbrev pub run_check :
      Option ((String × String) × List (String × String)) → Inventory F → Inventory F
  run_check none w = w
  run_check (some (c, rest)) w =
      (check_reorder_alert A env sql draws c.0 c.1
        (record w { store = record (w.store) { checks = rest } })).1

  unfoldable pub apply : Op F → Inventory F → Inventory F
  apply (move m) w = (create_stock_move A env sql draws m w).1
  apply (adjust adj tenant user) w = (adjust_stock A env sql draws adj tenant user w).1
  apply (check n) w = run_check (pick n w.store.checks) w

  abbrev pub run : List (Op F) → Inventory F → Inventory F
  run [] w = w
  run (op ∷ ops) w = run ops (apply op w)

  -- The ids of the moves that were announced, in order.
  abbrev pub announced : List (Event F) → List String
  announced [] = []
  announced (stock_moved m ∷ es) = m.id ∷ announced es
  announced (stock_low i n s c r t ∷ es) = announced es

  abbrev pub recorded : List (StockMove F) → List String
  recorded ms = map (λ m. m.id) ms

  abbrev pub IsAnnounced : Inventory F → Type 0
  IsAnnounced w = announced w.published ≡ recorded w.store.moves

  announced-append : (es fs : List (Event F)) → announced (es ++ fs) ≡ announced es ++ announced fs
  announced-append [] fs = refl
  announced-append (stock_moved m ∷ es) fs = rw (announced-append es fs) refl
  announced-append (stock_low i n s c r t ∷ es) fs = announced-append es fs

  create_stock_move-IsAnnounced :
      (m : StockMove F) (w : Inventory F)
      → IsAnnounced w
      → IsAnnounced (create_stock_move A env sql draws m w).1
  unfolding create_stock_move Moves.create_stock_move Moves.move_row ◌>>=◌
  create_stock_move-IsAnnounced m w h = at (check_move m) (env.fails (w.calls + 1)) refl refl
    where
      at :
          (r : Result (Unit {0})) (b : Bool)
          → check_move m ≡ r
          → env.fails (w.calls + 1) ≡ b
          → IsAnnounced (create_stock_move A env sql draws m w).1
      at (err e) b checked down = rw checked h
      at (ok c) true checked down = rw (checked, down) h
      at (ok c) false checked down =
          rw (checked, down)
            (rw (announced-append w.published, map-append (λ m. m.id) w.store.moves, h) refl)

  adjust_stock-IsAnnounced :
      (adj : StockAdjustment F) (tenant user : String) (w : Inventory F)
      → IsAnnounced w
      → IsAnnounced (adjust_stock A env sql draws adj tenant user w).1
  unfolding adjust_stock Moves.create_stock_move Moves.move_row ◌>>=◌
  adjust_stock-IsAnnounced adj tenant user w h =
      at (check_adjustment A tenant adj) (Repository.get_product A env adj.product_id tenant w).0
        (env.fails (w.calls + 1 + 1)) refl refl refl
    where
      at :
          (r : Result (Unit {0})) (found : Result (ProductView F)) (b : Bool)
          → check_adjustment A tenant adj ≡ r
          → (Repository.get_product A env adj.product_id tenant w).0 ≡ found
          → env.fails (w.calls + 1 + 1) ≡ b
          → IsAnnounced (adjust_stock A env sql draws adj tenant user w).1
      at (err e) found b checked e' down = rw checked h
      at (ok c) (err e) b checked e' down =
          rw (checked, e', get_product-world A env sql draws adj.product_id tenant w) h
      at (ok c) (ok v) true checked e' down =
          rw (checked, e', get_product-world A env sql draws adj.product_id tenant w, down) h
      at (ok c) (ok v) false checked e' down =
          rw (checked, e', get_product-world A env sql draws adj.product_id tenant w, down)
            (rw (announced-append w.published, map-append (λ m. m.id) w.store.moves, h) refl)

  alert-IsAnnounced :
      (i tenant : String) (found : Result (ProductView F)) (w : Inventory F)
      → IsAnnounced w
      → IsAnnounced (alert A env sql draws i tenant found w).1
  unfolding alert ◌>>=◌
  alert-IsAnnounced i tenant (err e) w h = h
  alert-IsAnnounced i tenant (ok v) w h = at (needs_alert v) refl
    where
      at : (b : Bool) → needs_alert v ≡ b → IsAnnounced (alert A env sql draws i tenant (ok v) w).1
      at true due =
          rw (due, announced-append w.published) (rw (append-nil (announced w.published)) h)
      at false due = rw due h

  check_reorder_alert-IsAnnounced :
      (i tenant : String) (w : Inventory F)
      → IsAnnounced w
      → IsAnnounced (check_reorder_alert A env sql draws i tenant w).1
  unfolding check_reorder_alert ◌>>=◌
  check_reorder_alert-IsAnnounced i tenant w h = rw (get_product-world A env sql draws i tenant w) (
      alert-IsAnnounced i tenant (Repository.get_product A env i tenant w).0
        (record w { calls = w.calls + 1 }) h)

  run_check-IsAnnounced :
      (picked : Option ((String × String) × List (String × String))) (w : Inventory F)
      → IsAnnounced w
      → IsAnnounced (run_check picked w)
  run_check-IsAnnounced none w h = h
  run_check-IsAnnounced (some (c, rest)) w h =
      check_reorder_alert-IsAnnounced c.0 c.1
        (record w { store = record (w.store) { checks = rest } }) h

  apply-IsAnnounced : (op : Op F) (w : Inventory F) → IsAnnounced w → IsAnnounced (apply op w)
  unfolding apply
  apply-IsAnnounced (move m) w h = create_stock_move-IsAnnounced m w h
  apply-IsAnnounced (adjust adj tenant user) w h = adjust_stock-IsAnnounced adj tenant user w h
  apply-IsAnnounced (check n) w h = run_check-IsAnnounced (pick n w.store.checks) w h

  -- If the bus has announced exactly the moves of the table, in order, then it still has after any
  -- moves, adjustments and reorder checks, in any order and whichever of their calls fail.
  pub run-IsAnnounced :
      (ops : List (Op F)) (w : Inventory F) → IsAnnounced w → IsAnnounced (run ops w)
  run-IsAnnounced [] w h = h
  run-IsAnnounced (op ∷ ops) w h = run-IsAnnounced ops (apply op w) (apply-IsAnnounced op w h)
