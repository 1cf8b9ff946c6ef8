-- ===== src/Sales/Domain.antt =====
-- goerp/internal/sales/domain/sales.go.
use goshield.Prelude.{ℕ, String, Bool, List}
use goshield.Go.Float.{Float64}
use goshield.Go.Text.{Text}

pub record Customer (F : Float64) : Type 0 where
  pub id : String
  pub tenant_id : String
  pub name : String
  pub email : String
  pub phone : String
  pub company_name : String
  pub tax_id : String
  pub address : String
  pub city : String
  pub country : String
  pub credit_limit : F.Num
  pub payment_terms : ℕ
  pub currency : String
  pub balance : F.Num
  pub is_active : Bool
  pub notes : String
  pub created_at : ℕ

pub record SalesOrderLine (F : Float64) : Type 0 where
  pub id : String
  pub order_id : String
  pub product_id : String
  pub description : String
  pub quantity : F.Num
  pub unit_price : F.Num
  pub discount_pct : F.Num
  pub tax_rate : F.Num
  pub subtotal : F.Num
  pub tax_amount : F.Num
  pub total : F.Num

pub record SalesOrder (F : Float64) : Type 0 where
  pub id : String
  pub tenant_id : String
  pub order_number : Text
  pub customer_id : String
  pub customer_name : String
  pub state : String
  pub order_date : String
  pub delivery_date : String
  pub currency : String
  pub subtotal : F.Num
  pub discount_amount : F.Num
  pub tax_amount : F.Num
  pub total : F.Num
  pub amount_paid : F.Num
  pub amount_due : F.Num
  pub notes : String
  pub lines : List (SalesOrderLine F)
  pub created_at : ℕ

pub record InvoiceLine (F : Float64) : Type 0 where
  pub id : String
  pub invoice_id : String
  pub product_id : String
  pub description : String
  pub quantity : F.Num
  pub unit_price : F.Num
  pub tax_rate : F.Num
  pub total : F.Num

pub record Invoice (F : Float64) : Type 0 where
  pub id : String
  pub tenant_id : String
  pub invoice_number : Text
  pub order_id : String
  pub customer_id : String
  pub customer_name : String
  pub invoice_type : String
  pub state : String
  pub invoice_date : String
  pub due_date : String
  pub currency : String
  pub subtotal : F.Num
  pub tax_amount : F.Num
  pub total : F.Num
  pub amount_paid : F.Num
  pub amount_due : F.Num
  pub notes : String
  pub lines : List (InvoiceLine F)
  pub created_at : ℕ

-- The search and the dates of the filter are never looked at.
pub record SalesFilter : Type 0 where
  pub tenant_id : String
  pub customer_id : String
  pub state : String
  pub page : ℕ
  pub page_size : ℕ

-- What the use case publishes on the bus of the process: the order and its tenant, or the invoice.
pub data Event (F : Float64) : Type 0 where
  sales_order_confirmed : String → String → Event F
  invoice_created : Invoice F → Event F
