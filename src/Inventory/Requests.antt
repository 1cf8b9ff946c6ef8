-- ===== src/Inventory/Requests.antt =====
-- goerp/internal/inventory: every request that changes a table, in any order, and what holds of the
-- products after it.
pub mod Rules
pub mod Others
pub mod Invariant
use goshield.Prelude.{
  ℕ, String, ◌≡◌, ◌∙◌, refl, Bool, true, false, Option, none, some, List, [], ◌∷◌, ◌++◌, ◌+◌, All,
  All-append, All-update_where, find, subst,
}
use goshield.Go.Errors.{Result, ok, err}
use goshield.Go.Float.{Float64, Arithmetic}
use goshield.Go.World.{Env, World, Exec, ◌>>=◌}
use goshield.Go.World.Steps.{Preorder, Steps, steps_rules}
use goshield.Inventory.Domain.{
  Product, ProductView, ProductCategory, ProductVariant, Warehouse, StockLocation, StockMove, Batch,
  Event, StockAdjustment,
}
use goshield.Inventory.Repository
use goshield.Inventory.Repository.{Tables, Inventory, Sql, is_product, view}
use goshield.Inventory.Repository.Moves
use goshield.Inventory.Repository.Catalogue
use goshield.Inventory.Checks.{prepare_product, prepare_update}
use goshield.Inventory.Checks.Listed.{IsListed, prepare_product-IsListed, prepare_update-IsListed}
use goshield.Inventory.Usecase
use goshield.Inventory.Usecase.{Draws, random}
use goshield.Inventory.Stock
use goshield.Inventory.Stock.Journal.{Op, apply, run_check}

pub data Request (F : Float64) : Type 0 where
  create_product : Product F → Request F
  update_product : Product F → Request F
  delete_product : String → String → Request F
  stock : Op F → Request F
  create_category : ProductCategory → Request F
  update_category : ProductCategory → Request F
  delete_category : String → String → Request F
  create_warehouse : Warehouse → Request F
  update_warehouse : Warehouse → Request F
  delete_warehouse : String → String → Request F
  create_location : StockLocation → Request F
  create_batch : Batch F → Request F
  create_variant : ProductVariant F → Request F

module _ {F : Float64} (A : Arithmetic F) (env : Env) (sql : Sql F) (draws : Draws) where
  unfoldable pub serve : Request F → Inventory F → Inventory F
  serve (create_product p) w = (Usecase.create_product A env sql draws p w).1
  serve (update_product p) w = (Usecase.update_product A env sql draws p w).1
  serve (delete_product i t) w = (Usecase.delete_product A env sql draws i t w).1
  serve (stock op) w = apply A env sql draws op w
  serve (create_category c) w = (Usecase.create_category A env sql draws c w).1
  serve (update_category c) w = (Usecase.update_category A env sql draws c w).1
  serve (delete_category i t) w = (Usecase.delete_category A env sql draws i t w).1
  serve (create_warehouse h) w = (Usecase.create_warehouse A env sql draws h w).1
  serve (update_warehouse h) w = (Usecase.update_warehouse A env sql draws h w).1
  serve (delete_warehouse i t) w = (Usecase.delete_warehouse A env sql draws i t w).1
  serve (create_location l) w = (Usecase.create_location A env sql draws l w).1
  serve (create_batch b) w = (Usecase.create_batch A env sql draws b w).1
  serve (create_variant v) w = (Usecase.create_variant A env sql draws v w).1

  abbrev pub serve_all : List (Request F) → Inventory F → Inventory F
  serve_all [] w = w
  serve_all (r ∷ rs) w = serve_all rs (serve r w)
