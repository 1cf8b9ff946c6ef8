-- ===== src/Inventory/Requests/Invariant.antt =====
-- goerp/internal/inventory: the invariant of the table of products.
use goshield.Prelude.{
  ℕ, arith, String, ◌≡◌, refl, Bool, true, false, Option, none, some, List, [], ◌∷◌, ◌++◌, ◌+◌, All,
  All-append, All-update_where, find, subst, update_where, if◌then◌else◌,
}
use goshield.Go.Float.{Float64, Arithmetic}
use goshield.Go.World.{Env, wrapping, Exec, ◌>>=◌}
use goshield.Go.World.Steps.{Steps, Preorder, steps_rules, Steps-bind, Steps-lift, Steps-lift_bind}
use goshield.Inventory.Domain.{Product, ProductView}
use goshield.Inventory.Repository
use goshield.Inventory.Repository.{Tables, Inventory, Sql, is_product, view}
use goshield.Inventory.Checks.{prepare_product, prepare_update}
use goshield.Inventory.Checks.Listed.{IsListed, prepare_product-IsListed, prepare_update-IsListed}
use goshield.Inventory.Usecase
use goshield.Inventory.Usecase.{Draws, random}
use goshield.Inventory.Stock.Journal.{Op, move, adjust, check, apply, run_check, pick}
use goshield.Inventory.Requests.{
  Request, serve, serve_all, create_product, update_product, delete_product, stock, create_category,
  update_category, delete_category, create_warehouse, update_warehouse, delete_warehouse,
  create_location, create_batch, create_variant,
}
use goshield.Inventory.Requests.Rules.{write_rules, random-Steps}
use goshield.Inventory.Requests.Others.{
  create_category-Steps, update_category-Steps, delete_category-Steps, create_warehouse-Steps,
  update_warehouse-Steps, delete_warehouse-Steps, create_location-Steps, create_batch-Steps,
  create_variant-Steps, create_stock_move-Steps, adjust_stock-Steps, check_reorder_alert-Steps,
}

module _ {F : Float64} where
  abbrev pub IsCatalogue : Inventory F → Type 0
  IsCatalogue w = All IsListed w.store.products

  restamped :
      (p q : Product F)
      → q.name ≡ p.name
      → q.sku ≡ p.sku
      → q.cost_price ≡ p.cost_price
      → q.sale_price ≡ p.sale_price
      → q.tax_rate ≡ p.tax_rate
      → q.min_stock_level ≡ p.min_stock_level
      → q.reorder_point ≡ p.reorder_point
      → IsListed p
      → IsListed q
  restamped p q name sku cost sale rate level reorder k = record {
    named = rw name k.named;
    coded = rw sku k.coded;
    cost = rw cost k.cost;
    sale = rw sale k.sale;
    margin = rw (cost, sale) k.margin;
    rate_low = rw rate k.rate_low;
    rate_high = rw rate k.rate_high;
    level = rw level k.level;
    reorder = rw reorder k.reorder;
  }

  found-IsListed :
      (q : Product F → Bool) (ps : List (Product F)) (p : Product F)
      → All IsListed ps
      → find q ps ≡ some p
      → IsListed p
  found-IsListed q [] p k h = cc
  found-IsListed q (x ∷ ps) p k h = at (q x) h (found-IsListed q ps p k.1)
    where
      at :
          (b : Bool)
          → (if b then some x else find q ps) ≡ some p
          → (find q ps ≡ some p → IsListed p)
          → IsListed p
      at true e later = subst IsListed (ground arith) k.0
      at false e later = later e

  Keeps : Tables F → Tables F → Type 0
  Keeps s t = All IsListed s.products → All IsListed t.products

  keeps : Preorder Keeps
  unfolding Keeps
  keeps = record { same = λ s h. h; chain = λ s t u p q h. q (p h) }

module _ {F : Float64} (A : Arithmetic F) (env : Env) (sql : Sql F) (draws : Draws) where
  ruleset rules = (steps_rules, write_rules, keeps)

  insert-Steps : (q : Product F) → IsListed q → Steps Keeps (Repository.create_product A env q)
  unfolding Repository.create_product Keeps
  insert-Steps q k = search (rules, appended) depth 10
    where
      appended :
          (i : String) (now : ℕ) (s : Tables F)
          → Keeps s (record s {
            products = s.products ++ record q { id = i; created_at = now; updated_at = now } ∷ [];
          })
      appended i now s h =
          All-append IsListed s.products _ h
            (restamped q _ refl refl refl refl refl refl refl k, tt)

  update-Steps : (q : Product F) → IsListed q → Steps Keeps (Repository.update_product A env q)
  unfolding Repository.update_product Keeps
  update-Steps q k = search (rules, updated) depth 10
    where
      updated :
          (now : ℕ) (s : Tables F)
          → Keeps s (record s {
            products =
                update_where
                  (is_product q.id q.tenant_id)
                  (Repository.updated A env q now)
                  s.products;
          })
      updated now s h =
          All-update_where IsListed (is_product q.id q.tenant_id) (Repository.updated A env q now)
            s.products (λ x hit old. restamped q _ refl refl refl refl refl refl refl k) h

  delete-Steps : (i tenant : String) → Steps Keeps (Repository.delete_product A env i tenant)
  unfolding Repository.delete_product Keeps
  delete-Steps i tenant = search (rules, hidden) depth 10
    where
      hidden :
          (s : Tables F)
          → Keeps s (record s {
            products =
                update_where (is_product i tenant) (λ p. record p { is_active = false }) s.products;
          })
      hidden s h =
          All-update_where IsListed (is_product i tenant) (λ p. record p { is_active = false })
            s.products (λ x hit old. restamped x _ refl refl refl refl refl refl refl old) h

  create_product-Steps : (p : Product F) → Steps Keeps (Usecase.create_product A env sql draws p)
  unfolding Usecase.create_product
  create_product-Steps p = Steps-bind keeps _ _ (random-Steps keeps draws 10000) (λ drawn.
      Steps-lift_bind keeps (prepare_product drawn p) _
        (λ q e. insert-Steps q (prepare_product-IsListed drawn p q e)))

  -- What follows the search for a product may use that the product is listed.
  found-Steps :
      {B : Type 0} (i tenant : String) (f : ProductView F → Exec (Inventory F) B)
      → ((v : ProductView F) → IsListed v.product → Steps Keeps (f v))
      → Steps Keeps (wrapping "product not found" (Repository.get_product A env i tenant) >>= f)
  unfolding Repository.get_product Keeps view ◌>>=◌
  found-Steps i tenant f k = record {
    from =
        λ w h. at w h (env.fails w.calls) (find (is_product i tenant) w.store.products) refl refl;
  }
    where
      at :
          (w : Inventory F) (h : All IsListed w.store.products) (b : Bool) (o : Option (Product F))
          → env.fails w.calls ≡ b
          → find (is_product i tenant) w.store.products ≡ o
          → All IsListed
              ((wrapping "product not found" (Repository.get_product A env i tenant) >>= f)
                w).1.store.products
      at w h true o down hit = rw down h
      at w h false none down hit = rw (down, hit) h
      at w h false (some p) down hit =
          rw (down, hit)
            ((k (view A w.store p)
                (found-IsListed (is_product i tenant) w.store.products p h hit)).from
              (record w { calls = w.calls + 1 }) h)

  update_product-Steps : (p : Product F) → Steps Keeps (Usecase.update_product A env sql draws p)
  unfolding Usecase.update_product
  update_product-Steps p = Steps-bind keeps _ _ (Steps-lift keeps _) (λ a.
      Steps-bind keeps _ _ (Steps-lift keeps _) (λ b. found-Steps p.id p.tenant_id _ (λ v listed.
        Steps-lift_bind keeps (prepare_update v.product p) _
          (λ q e. update-Steps q (prepare_update-IsListed v.product p q listed e)))))

  delete_product-Steps :
      (i tenant : String) → Steps Keeps (Usecase.delete_product A env sql draws i tenant)
  unfolding Usecase.delete_product
  delete_product-Steps i tenant =
      Steps-bind keeps _ _ (Steps-lift keeps _)
        (λ a. found-Steps i tenant _ (λ v listed. delete-Steps i tenant))

  elsewhere : {ps qs : List (Product F)} → ps ≡ qs → All IsListed ps → All IsListed qs
  elsewhere e h = subst (All IsListed) e h

  run_check-keeps :
      (picked : Option ((String × String) × List (String × String))) (w : Inventory F)
      → All IsListed w.store.products
      → All IsListed (run_check A env sql draws picked w).store.products
  run_check-keeps none w h = h
  run_check-keeps (some (c, rest)) w h =
      elsewhere
        ((check_reorder_alert-Steps A env sql draws c.0 c.1).from
          (record w { store = record (w.store) { checks = rest } }))
        h

  apply-keeps :
      (op : Op F) (w : Inventory F)
      → All IsListed w.store.products
      → All IsListed (apply A env sql draws op w).store.products
  unfolding apply
  apply-keeps (move m) w = elsewhere ((create_stock_move-Steps A env sql draws m).from w)
  apply-keeps (adjust adj tenant user) w =
      elsewhere ((adjust_stock-Steps A env sql draws adj tenant user).from w)
  apply-keeps (check n) w = run_check-keeps (pick n w.store.checks) w

  serve-IsCatalogue :
      (r : Request F) (w : Inventory F) → IsCatalogue w → IsCatalogue (serve A env sql draws r w)
  unfolding serve Keeps
  serve-IsCatalogue (create_product p) w h = (create_product-Steps p).from w h
  serve-IsCatalogue (update_product p) w h = (update_product-Steps p).from w h
  serve-IsCatalogue (delete_product i t) w h = (delete_product-Steps i t).from w h
  serve-IsCatalogue (stock op) w h = apply-keeps op w h
  serve-IsCatalogue (create_category c) w h =
      elsewhere ((create_category-Steps A env sql draws c).from w) h
  serve-IsCatalogue (update_category c) w h =
      elsewhere ((update_category-Steps A env sql draws c).from w) h
  serve-IsCatalogue (delete_category i t) w h =
      elsewhere ((delete_category-Steps A env sql draws i t).from w) h
  serve-IsCatalogue (create_warehouse k) w h =
      elsewhere ((create_warehouse-Steps A env sql draws k).from w) h
  serve-IsCatalogue (update_warehouse k) w h =
      elsewhere ((update_warehouse-Steps A env sql draws k).from w) h
  serve-IsCatalogue (delete_warehouse i t) w h =
      elsewhere ((delete_warehouse-Steps A env sql draws i t).from w) h
  serve-IsCatalogue (create_location l) w h =
      elsewhere ((create_location-Steps A env sql draws l).from w) h
  serve-IsCatalogue (create_batch b) w h =
      elsewhere ((create_batch-Steps A env sql draws b).from w) h
  serve-IsCatalogue (create_variant v) w h =
      elsewhere ((create_variant-Steps A env sql draws v).from w) h

  -- If every product of the table is listed properly, then so is every product after any requests,
  -- whichever of their calls fail: it has a name and a SKU, its cost, sale price and levels are not
  -- negative, its tax rate lies between 0 and 100, and its cost is not more than its sale price
  -- where both are positive. Nothing is said of the base price.
  pub serve_all-IsCatalogue :
      (rs : List (Request F)) (w : Inventory F)
      → IsCatalogue w
      → IsCatalogue (serve_all A env sql draws rs w)
  serve_all-IsCatalogue [] w h = h
  serve_all-IsCatalogue (r ∷ rs) w h =
      serve_all-IsCatalogue rs (serve A env sql draws r w) (serve-IsCatalogue r w h)
