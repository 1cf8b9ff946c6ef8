-- ===== src/Inventory/Requests/Others.antt =====
-- goerp/internal/inventory: the requests that leave the products alone.
use goshield.Prelude.{String, ◌≡◌, ◌∙◌, refl}
use goshield.Go.Errors.{Result, ok, err}
use goshield.Go.Float.{Float64, Arithmetic}
use goshield.Go.World.{Env}
use goshield.Go.World.Steps.{Preorder, Steps, steps_rules}
use goshield.Inventory.Domain.{
  ProductView, ProductCategory, ProductVariant, Warehouse, StockLocation, StockMove, Batch,
  StockAdjustment,
}
use goshield.Inventory.Repository
use goshield.Inventory.Repository.{Tables, Inventory, Sql, unless_taken}
use goshield.Inventory.Repository.Moves
use goshield.Inventory.Repository.Catalogue
use goshield.Inventory.Usecase
use goshield.Inventory.Usecase.{Draws, random}
use goshield.Inventory.Stock
use goshield.Inventory.Requests.Rules.{write_rules}

module _ {F : Float64} where
  abbrev pub SameProducts : Tables F → Tables F → Type 0
  SameProducts s t = s.products ≡ t.products

  same : Preorder SameProducts
  same = record { same = λ s. refl; chain = λ s t u p q. p ∙ q }

module _ {F : Float64} (A : Arithmetic F) (env : Env) (sql : Sql F) (draws : Draws) where
  ruleset rules = (steps_rules, write_rules, same)

  get_product-Steps :
      (i tenant : String) → Steps SameProducts (Repository.get_product A env i tenant)
  unfolding Repository.get_product
  get_product-Steps i tenant = search rules depth 6

  Moves-Steps : (m : StockMove F) → Steps SameProducts (Moves.create_stock_move env sql m)
  unfolding Moves.create_stock_move
  Moves-Steps m = search rules depth 8

  pub create_category-Steps :
      (c : ProductCategory) → Steps SameProducts (Usecase.create_category A env sql draws c)
  unfolding Usecase.create_category Catalogue.create_category
  create_category-Steps c = search rules depth 14

  pub update_category-Steps :
      (c : ProductCategory) → Steps SameProducts (Usecase.update_category A env sql draws c)
  unfolding Usecase.update_category Catalogue.update_category
  update_category-Steps c = search rules depth 14

  pub delete_category-Steps :
      (i tenant : String) → Steps SameProducts (Usecase.delete_category A env sql draws i tenant)
  unfolding Usecase.delete_category Catalogue.delete_category
  delete_category-Steps i tenant = search rules depth 14

  pub create_warehouse-Steps :
      (h : Warehouse) → Steps SameProducts (Usecase.create_warehouse A env sql draws h)
  unfolding Usecase.create_warehouse Catalogue.create_warehouse
  create_warehouse-Steps h = search rules depth 14

  pub update_warehouse-Steps :
      (h : Warehouse) → Steps SameProducts (Usecase.update_warehouse A env sql draws h)
  unfolding Usecase.update_warehouse Catalogue.update_warehouse
  update_warehouse-Steps h = search rules depth 14

  pub delete_warehouse-Steps :
      (i tenant : String) → Steps SameProducts (Usecase.delete_warehouse A env sql draws i tenant)
  unfolding Usecase.delete_warehouse Catalogue.delete_warehouse
  delete_warehouse-Steps i tenant = search rules depth 14

  pub create_location-Steps :
      (l : StockLocation) → Steps SameProducts (Usecase.create_location A env sql draws l)
  unfolding Usecase.create_location Catalogue.create_location
  create_location-Steps l = search rules depth 14

  pub create_batch-Steps :
      (b : Batch F) → Steps SameProducts (Usecase.create_batch A env sql draws b)
  unfolding Usecase.create_batch Catalogue.create_batch
  create_batch-Steps b = search (rules, get_product-Steps) depth 24

  pub create_variant-Steps :
      (v : ProductVariant F) → Steps SameProducts (Usecase.create_variant A env sql draws v)
  unfolding Usecase.create_variant Catalogue.create_variant
  create_variant-Steps v = search rules depth 14

  pub create_stock_move-Steps :
      (m : StockMove F) → Steps SameProducts (Stock.create_stock_move A env sql draws m)
  unfolding Stock.create_stock_move
  create_stock_move-Steps m = search (rules, Moves-Steps) depth 14

  pub adjust_stock-Steps :
      (adj : StockAdjustment F) (tenant user : String)
      → Steps SameProducts (Stock.adjust_stock A env sql draws adj tenant user)
  unfolding Stock.adjust_stock
  adjust_stock-Steps adj tenant user = search (rules, Moves-Steps, get_product-Steps) depth 14

  alert-Steps :
      (i tenant : String) (found : Result (ProductView F))
      → Steps SameProducts (Stock.alert A env sql draws i tenant found)
  unfolding Stock.alert
  alert-Steps i tenant (ok v) = search rules depth 8
  alert-Steps i tenant (err e) = search rules depth 8

  pub check_reorder_alert-Steps :
      (i tenant : String) → Steps SameProducts (Stock.check_reorder_alert A env sql draws i tenant)
  unfolding Stock.check_reorder_alert
  check_reorder_alert-Steps i tenant = search (rules, get_product-Steps, alert-Steps) depth 14
