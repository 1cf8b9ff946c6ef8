-- ===== src/Inventory/Domain.antt =====
-- goerp/internal/inventory/domain/product.go: the data of the inventory. The columns of a table are
-- the fields that the source stores; what a query computes is a record of its own.
use goshield.Prelude.{ℕ, String, Bool, Option, List}
use goshield.Go.Float.{Float64}
use goshield.Go.Text.{Text}

-- `Name` is a map from languages to names.
pub record Product (F : Float64) : Type 0 where
  pub id : String
  pub tenant_id : String
  pub sku : Text
  pub name : List (String × Text)
  pub description : String
  pub category_id : String
  pub uom : String
  pub base_price : F.Num
  pub cost_price : F.Num
  pub sale_price : F.Num
  pub tax_rate : F.Num
  pub barcode : String
  pub qr_code : String
  pub track_inventory : Bool
  pub track_batch : Bool
  pub track_serial : Bool
  pub has_expiry : Bool
  pub min_stock_level : F.Num
  pub reorder_point : F.Num
  pub is_active : Bool
  pub image_url : String
  pub tags : List Text
  pub created_at : ℕ
  pub updated_at : ℕ

-- A product as the queries return it; `ReservedQty` is never set.
pub record ProductView (F : Float64) : Type 0 where
  pub product : Product F
  pub name_en : Text
  pub category_name : Text
  pub current_stock : F.Num
  pub available_qty : F.Num
  pub stock_value : F.Num

pub record ProductCategory : Type 0 where
  pub id : String
  pub tenant_id : String
  pub name : Text
  pub parent_id : String
  pub description : Text
  pub created_at : ℕ

pub record ProductVariant (F : Float64) : Type 0 where
  pub id : String
  pub product_id : String
  pub sku : Text
  pub attributes : List (String × String)
  pub price_modifier : F.Num
  pub stock_qty : F.Num
  pub barcode : String
  pub is_active : Bool
  pub created_at : ℕ

pub record Warehouse : Type 0 where
  pub id : String
  pub tenant_id : String
  pub name : Text
  pub code : Text
  pub address : String
  pub city : String
  pub country : String
  pub is_active : Bool
  pub created_at : ℕ

pub record StockLocation : Type 0 where
  pub id : String
  pub warehouse_id : String
  pub name : Text
  pub code : Text
  pub location_type : String
  pub parent_id : String
  pub created_at : ℕ

pub record StockMove (F : Float64) : Type 0 where
  pub id : String
  pub tenant_id : String
  pub product_id : String
  pub variant_id : String
  pub from_location_id : String
  pub to_location_id : String
  pub quantity : F.Num
  pub unit_cost : F.Num
  pub batch_number : String
  pub serial_number : String
  pub expiry_date : Option ℕ
  pub move_type : String
  pub reference : Text
  pub state : String
  pub notes : Text
  pub created_by : String
  pub created_at : ℕ
  pub done_at : Option ℕ

pub record Batch (F : Float64) : Type 0 where
  pub id : String
  pub tenant_id : String
  pub product_id : String
  pub batch_number : Text
  pub manufacture_date : Option ℕ
  pub expiry_date : Option ℕ
  pub qty_received : F.Num
  pub qty_remaining : F.Num
  pub supplier_id : String
  pub created_at : ℕ

-- `ReservedQty` is never set.
pub record StockSummary (F : Float64) : Type 0 where
  pub product_id : String
  pub product_name : Text
  pub sku : Text
  pub category_name : Text
  pub uom : String
  pub total_stock : F.Num
  pub available_qty : F.Num
  pub unit_cost : F.Num
  pub stock_value : F.Num
  pub min_level : F.Num
  pub reorder_point : F.Num
  pub is_low : Bool
  pub needs_reorder : Bool

pub record StockAdjustment (F : Float64) : Type 0 where
  pub product_id : String
  pub location_id : String
  pub quantity : F.Num
  pub reason : Text
  pub notes : Text

pub record ListProductsFilter : Type 0 where
  pub tenant_id : String
  pub category_id : String
  pub search : String
  pub is_active : Option Bool
  pub low_stock : Bool
  pub page : ℕ
  pub page_size : ℕ
  pub sort_by : String
  pub sort_dir : String

pub record ListStockMovesFilter : Type 0 where
  pub tenant_id : String
  pub product_id : String
  pub move_type : String
  pub state : String
  pub date_from : String
  pub date_to : String
  pub page : ℕ
  pub page_size : ℕ

-- What the use case publishes on the bus of the process.
pub data Event (F : Float64) : Type 0 where
  stock_moved : StockMove F → Event F
  -- product, name, SKU, current stock, reorder point, tenant
  stock_low : String → Text → Text → F.Num → F.Num → String → Event F
