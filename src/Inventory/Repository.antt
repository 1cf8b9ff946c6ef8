-- ===== src/Inventory/Repository.antt =====
-- goerp/internal/inventory/repository/inventory_repo.go: the tables, the products, and the stock
-- that the queries compute from the moves. A foreign key that refuses a row is a call that fails.
pub mod Moves
pub mod Catalogue
pub mod Reports
use goshield.Prelude.{
  ℕ, String, Bool, true, false, not, ◌&&◌, ◌||◌, Option, none, some, List, [], ◌∷◌, ◌++◌, map, ◌==◌,
  ◌-◌, ◌*◌, any, find, select, take, drop, length, update_where, eqb, if◌then◌else◌,
}
use goshield.Go.Errors.{Result, ok, err, errorf, external}
use goshield.Go.Float.{Float64, Arithmetic, zero_float}
use goshield.Go.Text.{Text, codes, codes_eq, to_upper}
use goshield.Go.World.{
  Env, World, Exec, ◌>>=◌, ◌>>◌, pure, lift, call, attempt, wrapping, reads, writes, new_uuid,
  time_now,
}
use goshield.Inventory.Domain.{
  Product, ProductView, ProductCategory, ProductVariant, Warehouse, StockLocation, StockMove, Batch,
  Event, ListProductsFilter,
}
use goshield.Go.Float.{sum}
use goshield.Go.Errors.{or_zero}

-- `checks` are the goroutines of `checkReorderAlert` that have not run yet: product and tenant.
pub record Tables (F : Float64) : Type 0 where
  pub products : List (Product F)
  pub categories : List ProductCategory
  pub variants : List (ProductVariant F)
  pub warehouses : List Warehouse
  pub locations : List StockLocation
  pub moves : List (StockMove F)
  pub batches : List (Batch F)
  pub checks : List (String × String)

abbrev pub Inventory : Float64 → Type 0
Inventory F = World (Event F) (Tables F)

-- What SQLite does: `LIKE '%s%'`, the comparison of a stored time with a text, `ORDER BY`, and the
-- day that is read back from a date.
pub record Sql (F : Float64) : Type 0 where
  pub like : String → Text → Bool
  pub since : String → ℕ → Bool
  pub until : String → ℕ → Bool
  pub day : ℕ → ℕ
  pub this_month : ℕ → Bool
  pub order_products : String → String → List (ProductView F) → List (ProductView F)
  pub order_moves : List (StockMove F) → List (StockMove F)

-- The column of `nullStr s` is not NULL.
abbrev pub is_not_null : String → Bool
is_not_null s = not (s == "")

abbrev pub text_in : String → List (String × Text) → Option Text
text_in k [] = none
text_in k ((j, v) ∷ names) = if j == k then some v else text_in k names

-- `p.Name["en"]`
abbrev pub name_en : List (String × Text) → Text
name_en names = elim (text_in "en" names) [ some v ↦ v | none ↦ [] ]

-- `COALESCE(json_extract(p.name,'$.en'), p.sku)`
abbrev pub label : {F : Float64} → Product F → Text
label p = elim (text_in "en" p.name) [ some v ↦ v | none ↦ p.sku ]

abbrev pub category_name : String → List ProductCategory → Text
category_name i cats = elim (find (λ c. c.id == i) cats) [ some c ↦ c.name | none ↦ [] ]

abbrev pub or_default : ℕ → ℕ → ℕ
or_default d n = if eqb n 0 then d else n

abbrev pub sort_column : String → String
sort_column s =
    if s == "name"
    then "json_extract(p.name,'$.en')"
    else if s == "sku"
    then "p.sku"
    else if s == "price"
    then "p.sale_price"
    else if s == "stock"
    then "current_stock"
    else "p.created_at"

abbrev pub sort_direction : String → String
sort_direction s = if codes_eq (to_upper (codes s)) (codes "ASC") then "ASC" else "DESC"

module _ {F : Float64} where
  abbrev pub is_move_of : String → StockMove F → Bool
  is_move_of product m = m.product_id == product

  -- `CASE WHEN sm.to_location_id IS NOT NULL AND sm.state='done' THEN sm.quantity ELSE 0 END`
  abbrev pub arriving : StockMove F → F.Num
  arriving m =
      if is_not_null m.to_location_id && m.state == "done" then m.quantity else zero_float F

  abbrev pub leaving : StockMove F → F.Num
  leaving m =
      if is_not_null m.from_location_id && m.state == "done" then m.quantity else zero_float F

  abbrev pub is_product : String → String → Product F → Bool
  is_product i tenant p = p.id == i && p.tenant_id == tenant

  -- The HAVING clause of a list of products.
  unfoldable pub is_low : ProductView F → Bool
  is_low v =
      F.ge v.product.min_stock_level v.current_stock
      && F.gt v.product.min_stock_level (zero_float F)
      && v.product.track_inventory

  abbrev pub shown : ListProductsFilter → List (ProductView F) → List (ProductView F)
  unfolding is_low
  shown f vs = if f.low_stock then select is_low vs else vs

  -- The WHERE clause.
  unfoldable pub is_listed : Sql F → ListProductsFilter → Product F → Bool
  is_listed sql f p =
      p.tenant_id == f.tenant_id
      && (f.search == ""
          || sql.like f.search p.sku
          || elim (text_in "en" p.name) [ some v ↦ sql.like f.search v | none ↦ false ]
          || sql.like f.search (codes p.barcode))
      && (f.category_id == "" || p.category_id == f.category_id)
      && elim f.is_active [ none ↦ true | some true ↦ p.is_active | some false ↦ not p.is_active ]

module _ {F : Float64} (A : Arithmetic F) where
  unfoldable pub received : String → List (StockMove F) → F.Num
  received product moves = sum A (map arriving (select (is_move_of product) moves))

  unfoldable pub issued : String → List (StockMove F) → F.Num
  issued product moves = sum A (map leaving (select (is_move_of product) moves))

  -- The moves are joined by the product alone, whatever their tenant.
  unfoldable pub current_stock : String → List (StockMove F) → F.Num
  unfolding received issued
  current_stock product moves = A.sub (received product moves) (issued product moves)

  unfoldable pub view : Tables F → Product F → ProductView F
  unfolding current_stock
  view s p = record {
    product = p;
    name_en = name_en p.name;
    category_name = category_name p.category_id s.categories;
    current_stock = current_stock p.id s.moves;
    available_qty = current_stock p.id s.moves;
    stock_value = A.mul p.cost_price (current_stock p.id s.moves);
  }

  -- `scanProduct`
  scan_product : Tables F → Option (Product F) → Result (ProductView F)
  unfolding view
  scan_product s none = err (errorf "product not found")
  scan_product s (some p) = ok (view s p)

  unfoldable pub products_page : Sql F → ListProductsFilter → Tables F → List (ProductView F)
  unfolding is_listed view
  products_page sql f s = take (or_default 50 f.page_size) (
      drop ((or_default 1 f.page - 1) * or_default 50 f.page_size) (
        sql.order_products (sort_column f.sort_by) (sort_direction f.sort_dir)
          (shown f (map (view s) (select (is_listed sql f) s.products)))))

-- An INSERT or an UPDATE that a unique index refuses.
abbrev pub unless_taken :
    {F : Float64} → (Tables F → Bool) → (Tables F → Tables F) → Exec (Inventory F) (Unit {0})
unless_taken taken f w =
    if taken w.store then (err (external w.calls), w) else (ok tt, record w { store = f w.store })

module _ {F : Float64} (A : Arithmetic F) (env : Env) where
  -- The count does not look at the stock, and its errors leave it at 0.
  unfoldable pub list_products :
      Sql F → ListProductsFilter → Exec (Inventory F) (List (ProductView F) × ℕ)
  unfolding products_page is_listed
  list_products sql f = do
    products ← wrapping "list products" (call env (reads (λ s. ok (products_page A sql f s))))
    total ← attempt (call env (reads (λ s. ok (length (select (is_listed sql f) s.products)))))
    pure (products, or_zero total)

  unfoldable pub get_product : String → String → Exec (Inventory F) (ProductView F)
  unfolding scan_product
  get_product i tenant =
      call env (reads (λ s. scan_product A s (find (is_product i tenant) s.products)))

  -- `UNIQUE(tenant_id, sku)`
  abbrev has_sku : Product F → Product F → Bool
  has_sku row p = p.tenant_id == row.tenant_id && codes_eq p.sku row.sku

  unfoldable pub create_product : Product F → Exec (Inventory F) (Product F)
  create_product p = do
    i ← new_uuid env
    now ← time_now env
    let row = record p { id = i; created_at = now; updated_at = now }
    call env (
        unless_taken (λ s. any (has_sku row) s.products)
          (λ s. record s { products = s.products ++ row ∷ [] }))
    pure row

  -- The columns that the UPDATE sets.
  abbrev pub updated : Product F → ℕ → Product F → Product F
  updated p now row = record p {
    id = row.id;
    tenant_id = row.tenant_id;
    created_at = row.created_at;
    updated_at = now;
  }

  abbrev takes_sku : Product F → Tables F → Bool
  takes_sku p s =
      any (is_product p.id p.tenant_id) s.products
      && any (λ q. has_sku p q && not (q.id == p.id)) s.products

  unfoldable pub update_product : Product F → Exec (Inventory F) (Product F)
  update_product p = do
    now ← time_now env
    call env (
        unless_taken (takes_sku p) (λ s. record s {
          products = update_where (is_product p.id p.tenant_id) (updated p now) s.products;
        }))
    pure (record p { updated_at = now })

  unfoldable pub delete_product : String → String → Exec (Inventory F) (Unit {0})
  delete_product i tenant = call env (
      writes (λ s. record s {
        products =
            update_where (is_product i tenant) (λ p. record p { is_active = false }) s.products;
      }))
