-- ===== src/Inventory/Usecase.antt =====
-- goerp/internal/inventory/usecase/inventory_usecase.go: products, categories, warehouses, locations,
-- batches and variants. The orders of the listings are parameters of the repository.
use goshield.Prelude.{
  false, ℕ, String, Bool, true, not, ◌||◌, Option, some, List, ◌==◌, ltb, if◌then◌else◌,
}
use goshield.Go.Errors.{ok, refuse_if}
use goshield.Go.Float.{Float64, Arithmetic, zero_float}
use goshield.Go.Text.{Text, is_empty, utf8_length, trim_space, to_upper}
use goshield.Go.World.{Env, World, Exec, ◌>>=◌, ◌>>◌, lift, wrapping, time_now}
use goshield.Inventory.Domain.{
  Product, ProductView, ProductCategory, ProductVariant, Warehouse, StockLocation, Batch,
  StockSummary, ListProductsFilter,
}
use goshield.Inventory.Codes.{generate_code}
use goshield.Inventory.Repository
use goshield.Inventory.Repository.{Inventory, Sql}
use goshield.Inventory.Repository.Catalogue
use goshield.Inventory.Repository.Reports
use goshield.Inventory.Repository.Reports.{InventoryStats}
use goshield.Inventory.Checks.{prepare_product, prepare_update}

-- `rand.Intn(bound)` at the n-th call, and `t.Format("20060102")`.
pub record Draws : Type 0 where
  pub intn : ℕ → ℕ → ℕ
  pub compact_date : ℕ → Text

abbrev pub random : {M S : Type 0} → Draws → ℕ → Exec (World M S) ℕ
random draws bound w = (ok (draws.intn w.calls bound), w)

abbrev sort_field : String → String
sort_field s =
    if s == "name" || s == "sku" || s == "price" || s == "stock" || s == "created_at"
    then s
    else "created_at"

abbrev page_size : ℕ → ℕ
page_size n = if ltb n 1 || ltb 200 n then 50 else n

-- The filter as `ListProducts` passes it on.
unfoldable pub normalized : ListProductsFilter → ListProductsFilter
normalized f = record f {
  page = if ltb f.page 1 then 1 else f.page;
  page_size = page_size f.page_size;
  sort_dir = if f.sort_dir == "asc" || f.sort_dir == "desc" then f.sort_dir else "desc";
  sort_by = sort_field f.sort_by;
}

module _ {F : Float64} (A : Arithmetic F) (env : Env) (sql : Sql F) (draws : Draws) where
  unfoldable pub list_products : ListProductsFilter → Exec (Inventory F) (List (ProductView F) × ℕ)
  unfolding normalized
  list_products f = Repository.list_products A env sql (normalized f)

  pub get_product : String → String → Exec (Inventory F) (ProductView F)
  get_product i tenant = do
    lift (refuse_if (i == "") "product ID is required")
    Repository.get_product A env i tenant

  unfoldable pub create_product : Product F → Exec (Inventory F) (Product F)
  create_product p = do
    drawn ← random draws 10000
    q ← lift (prepare_product drawn p)
    Repository.create_product A env q

  unfoldable pub update_product : Product F → Exec (Inventory F) (Product F)
  update_product p = do
    lift (refuse_if (p.id == "") "product ID is required")
    lift (refuse_if (p.tenant_id == "") "tenant_id is required")
    old ← wrapping "product not found" (Repository.get_product A env p.id p.tenant_id)
    q ← lift (prepare_update old.product p)
    Repository.update_product A env q

  unfoldable pub delete_product : String → String → Exec (Inventory F) (Unit {0})
  delete_product i tenant = do
    lift (refuse_if (i == "") "product ID is required")
    wrapping "product not found" (Repository.get_product A env i tenant)
    Repository.delete_product A env i tenant

  -- At most 200 active products.
  unfoldable pub get_low_stock_products : String → Exec (Inventory F) (List (ProductView F) × ℕ)
  get_low_stock_products tenant = do
    lift (refuse_if (tenant == "") "tenant_id is required")
    Repository.list_products A env sql (record {
      tenant_id = tenant;
      category_id = "";
      search = "";
      is_active = some true;
      low_stock = true;
      page = 1;
      page_size = 200;
      sort_by = "";
      sort_dir = "";
    })

  unfoldable pub get_stock_summary :
      (List (StockSummary F) → List (StockSummary F))
      → String
      → Exec (Inventory F) (List (StockSummary F))
  get_stock_summary order tenant = do
    lift (refuse_if (tenant == "") "tenant_id is required")
    Reports.get_stock_summary A env sql order tenant

  pub get_inventory_stats : String → Exec (Inventory F) (InventoryStats F)
  get_inventory_stats tenant = do
    lift (refuse_if (tenant == "") "tenant_id is required")
    Reports.get_inventory_stats A env sql tenant

  unfoldable pub create_category : ProductCategory → Exec (Inventory F) ProductCategory
  create_category c = do
    lift (refuse_if (c.tenant_id == "") "tenant_id is required")
    lift (refuse_if (is_empty (trim_space c.name)) "category name is required")
    lift (
        refuse_if (ltb 100 (utf8_length (trim_space c.name)))
          "category name cannot exceed 100 characters")
    Catalogue.create_category env
        (record c { name = trim_space c.name; description = trim_space c.description })

  unfoldable pub update_category : ProductCategory → Exec (Inventory F) (Unit {0})
  update_category c = do
    lift (refuse_if (c.id == "") "category ID is required")
    lift (refuse_if (is_empty (trim_space c.name)) "category name is required")
    Catalogue.update_category env (record c { name = trim_space c.name })

  unfoldable pub delete_category : String → String → Exec (Inventory F) (Unit {0})
  delete_category i tenant = do
    lift (refuse_if (i == "") "category ID is required")
    Catalogue.delete_category env i tenant

  abbrev code_or : ℕ → ℕ → Text → Text → Text
  code_or drawn width name code =
      if is_empty (to_upper (trim_space code))
      then generate_code drawn name width
      else to_upper (trim_space code)

  unfoldable pub create_warehouse : Warehouse → Exec (Inventory F) Warehouse
  create_warehouse h = do
    lift (refuse_if (h.tenant_id == "") "tenant_id is required")
    lift (refuse_if (is_empty (trim_space h.name)) "warehouse name is required")
    drawn ← random draws 1000
    Catalogue.create_warehouse env (record h {
      name = trim_space h.name;
      code = code_or drawn 5 (trim_space h.name) h.code;
      is_active = true;
    })

  unfoldable pub update_warehouse : Warehouse → Exec (Inventory F) (Unit {0})
  update_warehouse h = do
    lift (refuse_if (h.id == "") "warehouse ID is required")
    lift (refuse_if (is_empty (trim_space h.name)) "warehouse name is required")
    Catalogue.update_warehouse env (record h { name = trim_space h.name })

  unfoldable pub delete_warehouse : String → String → Exec (Inventory F) (Unit {0})
  delete_warehouse i tenant = do
    lift (refuse_if (i == "") "warehouse ID is required")
    Catalogue.delete_warehouse env i tenant

  -- The warehouse's id goes where the repository expects the tenant's.
  unfoldable pub list_locations :
      (List (StockLocation × Text) → List (StockLocation × Text))
      → String
      → String
      → Exec (Inventory F) (List (StockLocation × Text))
  list_locations order tenant warehouse = Catalogue.list_locations env order warehouse

  unfoldable pub create_location : StockLocation → Exec (Inventory F) StockLocation
  create_location l = do
    lift (refuse_if (l.warehouse_id == "") "warehouse_id is required")
    lift (refuse_if (is_empty (trim_space l.name)) "location name is required")
    drawn ← random draws 1000
    Catalogue.create_location env (record l {
      name = trim_space l.name;
      code = code_or drawn 6 (trim_space l.name) l.code;
      location_type = if l.location_type == "" then "internal" else l.location_type;
    })

  -- `t.Before(u)` for two times that may be missing.
  abbrev is_before : Option ℕ → Option ℕ → Bool
  is_before (some t) (some u) = ltb t u
  is_before _ _ = false

  unfoldable pub create_batch : Batch F → Exec (Inventory F) (Batch F)
  create_batch b = do
    lift (refuse_if (b.tenant_id == "") "tenant_id is required")
    lift (refuse_if (b.product_id == "") "product_id is required")
    lift (refuse_if (is_empty (trim_space b.batch_number)) "batch_number is required")
    lift (refuse_if (F.ge (zero_float F) b.qty_received) "qty_received must be greater than zero")
    prod ← wrapping "product not found" (Repository.get_product A env b.product_id b.tenant_id)
    lift (refuse_if (not prod.product.track_batch) "product does not have batch tracking enabled")
    lift (
        refuse_if (is_before b.expiry_date b.manufacture_date)
          "expiry_date cannot be before manufacture_date")
    now ← time_now env
    lift (
        refuse_if (is_before b.expiry_date (some now))
          "expiry_date cannot be in the past for new batches")
    Catalogue.create_batch env sql
        (record b { batch_number = trim_space b.batch_number; qty_remaining = b.qty_received })

  -- The arguments change places.
  unfoldable pub list_variants :
      (List (ProductVariant F) → List (ProductVariant F))
      → String
      → String
      → Exec (Inventory F) (List (ProductVariant F))
  list_variants order tenant product = do
    lift (refuse_if (product == "") "product_id is required")
    Catalogue.list_variants env order tenant product

  unfoldable pub create_variant : ProductVariant F → Exec (Inventory F) (ProductVariant F)
  create_variant v = do
    lift (refuse_if (v.product_id == "") "product_id is required")
    lift (refuse_if (is_empty (to_upper (trim_space v.sku))) "sku is required for variant")
    lift (
        refuse_if (F.gt (A.neg (F.decimal 100 0)) v.price_modifier)
          "price_modifier cannot be less than -100%")
    Catalogue.create_variant env (record v { sku = to_upper (trim_space v.sku); is_active = true })
