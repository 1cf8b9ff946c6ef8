-- ===== src/Inventory/Checks.antt =====
-- goerp/internal/inventory/usecase/inventory_usecase.go: the validation of what is created or
-- changed, as functions that return the prepared value or an error.
pub mod Listed
use goshield.Prelude.{
  ℕ, String, Bool, true, not, ◌&&◌, ◌||◌, List, [], ◌∷◌, map, ◌==◌, select, if◌then◌else◌,
}
use goshield.Go.Errors.{Result, ok, err, errorf}
use goshield.Go.Float.{Float64, Arithmetic, zero_float}
use goshield.Go.Text.{Text, is_empty, trim_space, to_lower, to_upper}
use goshield.Inventory.Domain.{Product, StockMove, StockAdjustment}
use goshield.Inventory.Codes.{generate_sku}
use goshield.Inventory.Repository.{name_en}

-- `p.Name["en"] = v`
abbrev pub set_en : Text → List (String × Text) → List (String × Text)
set_en v [] = ("en", v) ∷ []
set_en v ((k, old) ∷ names) =
    let rest = set_en v names in if k == "en" then (k, v) ∷ names else (k, old) ∷ rest

-- The loop over the tags: trimmed and in lower case, without the empty ones.
abbrev pub clean_tags : List Text → List Text
clean_tags tags = select (λ t. not (is_empty t)) (map (λ t. trim_space (to_lower t)) tags)

abbrev pub sku_or : Text → Text → Text
sku_or default sku = if is_empty (trim_space sku) then default else to_upper (trim_space sku)

abbrev pub is_move_type : String → Bool
is_move_type t =
    t == "in" || t == "out" || t == "transfer" || t == "adjust" || t == "return" || t == "scrap"

abbrev pub is_positive : (F : Float64) → F.Num → Bool
is_positive F x = F.gt x (zero_float F)

abbrev pub is_negative : (F : Float64) → F.Num → Bool
is_negative F x = F.gt (zero_float F) x

abbrev pub is_bad_rate : (F : Float64) → F.Num → Bool
is_bad_rate F x = is_negative F x || F.gt x (F.decimal 100 0)

module _ {F : Float64} where
  -- A sale below cost, if both prices are given.
  abbrev pub sells_below_cost : Product F → Bool
  sells_below_cost p =
      is_positive F p.sale_price && is_positive F p.cost_price && F.gt p.cost_price p.sale_price

  -- The prices, levels and rates of a new product.
  unfoldable pub check_new : Product F → Result (Product F)
  check_new p =
      if is_negative F p.cost_price
      then err (errorf "cost_price cannot be negative")
      else if is_negative F p.sale_price
      then err (errorf "sale_price cannot be negative")
      else if is_negative F p.base_price
      then err (errorf "base_price cannot be negative")
      else if sells_below_cost p
      then err (errorf "sale_price cannot be less than cost_price")
      else if is_negative F p.min_stock_level
      then err (errorf "min_stock_level cannot be negative")
      else if is_negative F p.reorder_point
      then err (errorf "reorder_point cannot be negative")
      else if is_positive F p.reorder_point
          && is_positive F p.min_stock_level
          && F.gt p.min_stock_level p.reorder_point
      then err (errorf "reorder_point should be greater than or equal to min_stock_level")
      else if is_bad_rate F p.tax_rate
      then err (errorf "tax_rate must be between 0 and 100")
      else ok p

  -- The base price, and the reorder point against the minimum, are not looked at again.
  unfoldable pub check_changed : Product F → Result (Product F)
  check_changed p =
      if is_negative F p.cost_price
      then err (errorf "cost_price cannot be negative")
      else if is_negative F p.sale_price
      then err (errorf "sale_price cannot be negative")
      else if sells_below_cost p
      then err (errorf "sale_price cannot be less than cost_price")
      else if is_bad_rate F p.tax_rate
      then err (errorf "tax_rate must be between 0 and 100")
      else if is_negative F p.min_stock_level
      then err (errorf "min_stock_level cannot be negative")
      else if is_negative F p.reorder_point
      then err (errorf "reorder_point cannot be negative")
      else ok p

  -- The body of `CreateProduct` up to the INSERT; `drawn` is the random number of the SKU.
  unfoldable pub prepare_product : ℕ → Product F → Result (Product F)
  unfolding check_new
  prepare_product drawn p =
      if p.tenant_id == ""
      then err (errorf "tenant_id is required")
      else if is_empty (trim_space (name_en p.name))
      then err (errorf "product name (en) is required")
      else check_new (record p {
        name = set_en (trim_space (name_en p.name)) p.name;
        sku = sku_or (generate_sku drawn (trim_space (name_en p.name))) p.sku;
        uom = if p.uom == "" then "unit" else p.uom;
        is_active = true;
        tags = clean_tags p.tags;
      })

  -- The body of `UpdateProduct` between the SELECT, which found `old`, and the UPDATE.
  unfoldable pub prepare_update : Product F → Product F → Result (Product F)
  unfolding check_changed
  prepare_update old p =
      if not (is_empty p.name) && is_empty (trim_space (name_en p.name))
      then err (errorf "product name (en) cannot be empty")
      else check_changed (record p {
        tenant_id = old.tenant_id;
        created_at = old.created_at;
        name = if is_empty p.name then old.name else set_en (trim_space (name_en p.name)) p.name;
        sku = sku_or old.sku p.sku;
        tags = clean_tags p.tags;
      })

  -- The `switch` on the type of a move.
  unfoldable pub check_locations : StockMove F → Result (Unit {0})
  check_locations m =
      if m.move_type == "in" && m.to_location_id == ""
      then err (errorf "to_location_id is required for inbound moves")
      else if (m.move_type == "out" || m.move_type == "scrap") && m.from_location_id == ""
      then err (errorf "from_location_id is required for outbound moves")
      else if m.move_type == "transfer" && (m.from_location_id == "" || m.to_location_id == "")
      then err (errorf "both from_location_id and to_location_id are required for transfers")
      else if m.move_type == "transfer" && m.from_location_id == m.to_location_id
      then err (errorf "from_location_id and to_location_id cannot be the same for transfers")
      else if m.move_type == "adjust" && is_empty m.notes
      then err (errorf "notes are required for stock adjustments (explain the reason)")
      else if m.move_type == "return" && is_empty m.reference
      then err (errorf "reference is required for return moves")
      else if is_negative F m.unit_cost
      then err (errorf "unit_cost cannot be negative")
      else ok tt

  -- The checks of `CreateStockMove`.
  unfoldable pub check_move : StockMove F → Result (Unit {0})
  unfolding check_locations
  check_move m =
      if m.tenant_id == ""
      then err (errorf "tenant_id is required")
      else if m.product_id == ""
      then err (errorf "product_id is required")
      else if F.ge (zero_float F) m.quantity
      then err (errorf "quantity must be greater than zero")
      else if not (is_move_type m.move_type)
      then err (errorf "invalid move_type: must be one of in, out, transfer, adjust, return, scrap")
      else check_locations m

  -- The checks of `AdjustStock`.
  unfoldable pub check_adjustment : Arithmetic F → String → StockAdjustment F → Result (Unit {0})
  check_adjustment A tenant adj =
      if tenant == ""
      then err (errorf "tenant_id is required")
      else if adj.product_id == ""
      then err (errorf "product_id is required")
      else if A.eq adj.quantity (zero_float F)
      then err (errorf "quantity cannot be zero for an adjustment")
      else if is_empty adj.reason
      then err (errorf "reason is required for stock adjustments")
      else ok tt
