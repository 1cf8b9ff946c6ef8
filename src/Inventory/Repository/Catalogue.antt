-- ===== src/Inventory/Repository/Catalogue.antt =====
-- goerp/internal/inventory/repository/inventory_repo.go: categories, warehouses, locations, batches
-- and variants. `order` is the ORDER BY of a query.
use goshield.Prelude.{
  ℕ, String, Bool, true, false, ◌&&◌, ◌||◌, Option, none, some, List, [], ◌∷◌, ◌++◌, map, ◌==◌, any,
  find, select, length, update_where, delete_where, if◌then◌else◌,
}
use goshield.Go.Errors.{ok}
use goshield.Go.Float.{Float64}
use goshield.Go.Text.{Text, codes_eq}
use goshield.Go.World.{Env, Exec, ◌>>=◌, ◌>>◌, pure, call, reads, writes, new_uuid, time_now}
use goshield.Inventory.Domain.{ProductCategory, ProductVariant, Warehouse, StockLocation, Batch}
use goshield.Inventory.Repository.{
  Tables, Inventory, Sql, label, category_name, is_product, unless_taken,
}

abbrev pub category_in : String → String → ProductCategory → Bool
category_in i tenant c = c.id == i && c.tenant_id == tenant

abbrev pub warehouse_in : String → String → Warehouse → Bool
warehouse_in i tenant h = h.id == i && h.tenant_id == tenant

-- `UNIQUE(tenant_id, code)`
abbrev pub has_code : Warehouse → Warehouse → Bool
has_code row h = h.tenant_id == row.tenant_id && codes_eq h.code row.code

abbrev pub warehouse_of : StockLocation → List Warehouse → Option Warehouse
warehouse_of l hs = find (λ h. h.id == l.warehouse_id) hs

-- The parameter is compared with the tenant of the location's warehouse.
abbrev pub is_tenant_location : String → List Warehouse → StockLocation → Bool
is_tenant_location tenant hs l = elim (warehouse_of l hs) [
  | none ↦ false
  | some h ↦ h.tenant_id == tenant
]

module _ {F : Float64} (env : Env) where
  -- With the name of its parent and the number of its active products.
  unfoldable pub list_categories :
      (List ProductCategory → List ProductCategory)
      → String
      → Exec (Inventory F) (List (ProductCategory × Text × ℕ))
  list_categories order tenant = call env (
      reads (λ s. ok (
        map
          (λ c. (
            c,
            category_name c.parent_id s.categories,
            length (select (λ p. p.category_id == c.id && p.is_active) s.products),
          ))
          (order (select (λ c. c.tenant_id == tenant) s.categories)))))

  unfoldable pub create_category : ProductCategory → Exec (Inventory F) ProductCategory
  create_category c = do
    i ← new_uuid env
    now ← time_now env
    let row = record c { id = i; created_at = now }
    call env (writes (λ s. record s { categories = s.categories ++ row ∷ [] }))
    pure row

  unfoldable pub update_category : ProductCategory → Exec (Inventory F) (Unit {0})
  update_category c = call env (
      writes (λ s. record s {
        categories =
            update_where (category_in c.id c.tenant_id)
              (λ row. record row {
                name = c.name;
                description = c.description;
                parent_id = c.parent_id;
              })
              s.categories;
      }))

  unfoldable pub delete_category : String → String → Exec (Inventory F) (Unit {0})
  delete_category i tenant =
      call env
        (writes (λ s. record s { categories = delete_where (category_in i tenant) s.categories }))

  -- With the number of its locations.
  unfoldable pub list_warehouses :
      (List Warehouse → List Warehouse) → String → Exec (Inventory F) (List (Warehouse × ℕ))
  list_warehouses order tenant = call env (
      reads (λ s. ok (
        map (λ h. (h, length (select (λ l. l.warehouse_id == h.id) s.locations)))
          (order (select (λ h. h.tenant_id == tenant) s.warehouses)))))

  -- The INSERT has 1 for `is_active`.
  unfoldable pub create_warehouse : Warehouse → Exec (Inventory F) Warehouse
  create_warehouse h = do
    i ← new_uuid env
    now ← time_now env
    let row = record h { id = i; created_at = now; is_active = true }
    call env (
        unless_taken (λ s. any (has_code row) s.warehouses)
          (λ s. record s { warehouses = s.warehouses ++ row ∷ [] }))
    pure (record h { id = i; created_at = now })

  abbrev takes_code : Warehouse → Tables F → Bool
  takes_code h s =
      any (warehouse_in h.id h.tenant_id) s.warehouses
      && any (λ k. has_code h k && (if k.id == h.id then false else true)) s.warehouses

  unfoldable pub update_warehouse : Warehouse → Exec (Inventory F) (Unit {0})
  update_warehouse h = call env (
      unless_taken (takes_code h) (λ s. record s {
        warehouses =
            update_where (warehouse_in h.id h.tenant_id)
              (λ row. record h {
                id = row.id;
                tenant_id = row.tenant_id;
                created_at = row.created_at;
              })
              s.warehouses;
      }))

  unfoldable pub delete_warehouse : String → String → Exec (Inventory F) (Unit {0})
  delete_warehouse i tenant = call env (
      writes (λ s. record s {
        warehouses =
            update_where (warehouse_in i tenant) (λ h. record h { is_active = false }) s.warehouses;
      }))

  -- With the name of its warehouse.
  unfoldable pub list_locations :
      (List (StockLocation × Text) → List (StockLocation × Text))
      → String
      → Exec (Inventory F) (List (StockLocation × Text))
  list_locations order tenant = call env (
      reads (λ s. ok (
        order (
          map (λ l. (l, elim (warehouse_of l s.warehouses) [ some h ↦ h.name | none ↦ [] ]))
            (select (is_tenant_location tenant s.warehouses) s.locations)))))

  unfoldable pub create_location : StockLocation → Exec (Inventory F) StockLocation
  create_location l = do
    i ← new_uuid env
    now ← time_now env
    let row = record l { id = i; created_at = now }
    call env (writes (λ s. record s { locations = s.locations ++ row ∷ [] }))
    pure row

  -- With the name of its product; an empty product is every product.
  unfoldable pub list_batches :
      (List (Batch F) → List (Batch F))
      → String
      → String
      → Exec (Inventory F) (List (Batch F × Text))
  list_batches order tenant product = call env (
      reads (λ s. ok (
        map
          (λ b. (
            b,
            elim (find (λ p. p.id == b.product_id) s.products) [ some p ↦ label p | none ↦ [] ],
          ))
          (order (
            select (λ b. b.tenant_id == tenant && (product == "" || b.product_id == product))
              s.batches)))))

  abbrev pub as_day : Sql F → Option ℕ → Option ℕ
  as_day sql none = none
  as_day sql (some t) = some (sql.day t)

  -- The INSERT writes the received quantity as the remaining one.
  unfoldable pub create_batch : Sql F → Batch F → Exec (Inventory F) (Batch F)
  create_batch sql b = do
    i ← new_uuid env
    now ← time_now env
    let made = record b { id = i; created_at = now }
    let row = record made {
      manufacture_date = as_day sql b.manufacture_date;
      expiry_date = as_day sql b.expiry_date;
      qty_remaining = b.qty_received;
    }
    call env (writes (λ s. record s { batches = s.batches ++ row ∷ [] }))
    pure made

  -- The product must be the tenant's; its name, which the query returns too, is left out.
  unfoldable pub list_variants :
      (List (ProductVariant F) → List (ProductVariant F))
      → String
      → String
      → Exec (Inventory F) (List (ProductVariant F))
  list_variants order product tenant = call env (
      reads (λ s. ok (
        order (
          select (λ v. v.product_id == product && any (is_product product tenant) s.products)
            s.variants))))

  -- The INSERT has 1 for `is_active`.
  unfoldable pub create_variant : ProductVariant F → Exec (Inventory F) (ProductVariant F)
  create_variant v = do
    i ← new_uuid env
    now ← time_now env
    let made = record v { id = i; created_at = now }
    call env
        (writes (λ s. record s { variants = s.variants ++ record made { is_active = true } ∷ [] }))
    pure made
