-- ===== src/Inventory/Checks/Listed.antt =====
-- goerp/internal/inventory/usecase/inventory_usecase.go: what the checks of a product establish.
use goshield.Prelude.{
  ℕ, String, ◌≡◌, refl, Bool, true, false, List, [], ◌∷◌, ◌++◌, ◌==◌, arith, if◌then◌else◌,
}
use goshield.Go.Errors.{ok}
use goshield.Go.Float.{Float64}
use goshield.Go.Text.{Text, is_empty, trim_space, to_upper, digits}
use goshield.Inventory.Domain.{Product}
use goshield.Inventory.Codes.{generate_sku}
use goshield.Inventory.Repository.{name_en}
use goshield.Inventory.Checks.{
  set_en, sku_or, check_new, check_changed, prepare_product, prepare_update,
}

-- A product has an English name and a SKU. Its cost, its sale price and its levels are not negative,
-- and its tax rate lies between 0 and 100. If the sale price and the cost are both positive, the cost
-- is not more than the sale price. Nothing is said of the base price.
pub record IsListed {F : Float64} (p : Product F) : Type 0 where
  pub named : is_empty (name_en p.name) ≡ false
  pub coded : is_empty p.sku ≡ false
  pub cost : F.gt (F.decimal 0 0) p.cost_price ≡ false
  pub sale : F.gt (F.decimal 0 0) p.sale_price ≡ false
  pub margin :
      F.gt p.sale_price (F.decimal 0 0) ≡ true
      → F.gt p.cost_price (F.decimal 0 0) ≡ true
      → F.gt p.cost_price p.sale_price ≡ false
  pub rate_low : F.gt (F.decimal 0 0) p.tax_rate ≡ false
  pub rate_high : F.gt p.tax_rate (F.decimal 100 0) ≡ false
  pub level : F.gt (F.decimal 0 0) p.min_stock_level ≡ false
  pub reorder : F.gt (F.decimal 0 0) p.reorder_point ≡ false

is_empty-append : {A : Type 0} (xs ys : List A) → is_empty ys ≡ false → is_empty (xs ++ ys) ≡ false
is_empty-append [] ys h = h
is_empty-append (x ∷ xs) ys h = refl

is_empty-to_upper : (s : Text) → is_empty s ≡ false → is_empty (to_upper s) ≡ false
is_empty-to_upper [] h = h
is_empty-to_upper (c ∷ s) h = refl

name_en-set_en : (v : Text) (names : List (String × Text)) → name_en (set_en v names) ≡ v
name_en-set_en v [] = refl
name_en-set_en v ((k, old) ∷ names) = ground (arith, name_en-set_en v names)

generate_sku-coded : (drawn : ℕ) (name : Text) → is_empty (generate_sku drawn name) ≡ false
unfolding generate_sku
generate_sku-coded drawn name = is_empty-append _ (digits 4 drawn) refl

sku_or-coded :
    (default sku : Text) → is_empty default ≡ false → is_empty (sku_or default sku) ≡ false
sku_or-coded default sku h = at (is_empty (trim_space sku)) refl
  where
    at :
        (b : Bool)
        → is_empty (trim_space sku) ≡ b
        → is_empty (if b then default else to_upper (trim_space sku)) ≡ false
    at true e = h
    at false e = is_empty-to_upper (trim_space sku) e

module _ {F : Float64} where
  check_changed-IsListed :
      (p q : Product F)
      → is_empty (name_en p.name) ≡ false
      → is_empty p.sku ≡ false
      → check_changed p ≡ ok q
      → IsListed q
  unfolding check_changed
  check_changed-IsListed p q named coded h = record {
    named = ground arith;
    coded = ground arith;
    cost = ground arith;
    sale = ground arith;
    margin = λ s c. ground arith;
    rate_low = ground arith;
    rate_high = ground arith;
    level = ground arith;
    reorder = ground arith;
  }

  check_new-IsListed :
      (p q : Product F)
      → is_empty (name_en p.name) ≡ false
      → is_empty p.sku ≡ false
      → check_new p ≡ ok q
      → IsListed q
  unfolding check_new
  check_new-IsListed p q named coded h = record {
    named = ground arith;
    coded = ground arith;
    cost = ground arith;
    sale = ground arith;
    margin = λ s c. ground arith;
    rate_low = ground arith;
    rate_high = ground arith;
    level = ground arith;
    reorder = ground arith;
  }

  pub prepare_product-IsListed :
      (drawn : ℕ) (p q : Product F) → prepare_product drawn p ≡ ok q → IsListed q
  unfolding prepare_product
  prepare_product-IsListed drawn p q =
      at (p.tenant_id == "") (is_empty (trim_space (name_en p.name))) refl refl
    where
      at :
          (a b : Bool)
          → (p.tenant_id == "") ≡ a
          → is_empty (trim_space (name_en p.name)) ≡ b
          → prepare_product drawn p ≡ ok q
          → IsListed q
      at true b tenant named = rw tenant (λ h. cc)
      at false true tenant named = rw (tenant, named) (λ h. cc)
      at false false tenant named =
          rw (tenant, named)
            (check_new-IsListed _ q (rw (name_en-set_en (trim_space (name_en p.name)) p.name) named)
              (sku_or-coded _ p.sku (generate_sku-coded drawn (trim_space (name_en p.name)))))

  pub prepare_update-IsListed :
      (old p q : Product F) → IsListed old → prepare_update old p ≡ ok q → IsListed q
  unfolding prepare_update
  prepare_update-IsListed old p q k =
      at (is_empty p.name) (is_empty (trim_space (name_en p.name))) refl refl
    where
      at :
          (a b : Bool)
          → is_empty p.name ≡ a
          → is_empty (trim_space (name_en p.name)) ≡ b
          → prepare_update old p ≡ ok q
          → IsListed q
      at true b given named =
          rw given (check_changed-IsListed _ q k.named (sku_or-coded old.sku p.sku k.coded))
      at false true given named = rw (given, named) (λ h. cc)
      at false false given named =
          rw (given, named)
            (check_changed-IsListed _ q
              (rw (name_en-set_en (trim_space (name_en p.name)) p.name) named)
              (sku_or-coded old.sku p.sku k.coded))
