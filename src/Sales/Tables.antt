-- ===== src/Sales/Tables.antt =====
-- goerp/internal/sales/repository/sales_repo.go: the tables and what is read of a row. A row holds the columns that a statement writes or
-- reads; a foreign key that refuses a row is a call that fails.
use goshield.Go.World.{Exec}
use goshield.Go.Errors.{ok}
use goshield.Prelude.{
  ◌&&◌, ℕ, ◌%◌, String, Bool, none, some, List, [], ◌++◌, ◌==◌, ltb, find, if◌then◌else◌,
}
use goshield.Go.Float.{Float64, zero_float}
use goshield.Go.Text.{Text, codes, digits}
use goshield.Go.World.{World}
use goshield.Sales.Domain.{Customer, SalesOrder, Invoice, Event}

pub record CustomerRow : Type 0 where
  pub id : String
  pub tenant_id : String
  pub name : String
  pub email : String
  pub phone : String
  pub company_name : String
  pub is_active : Bool
  pub created_at : ℕ

pub record OrderRow (F : Float64) : Type 0 where
  pub id : String
  pub tenant_id : String
  pub order_number : Text
  pub customer_id : String
  pub state : String
  pub order_date : String
  pub subtotal : F.Num
  pub tax_amount : F.Num
  pub total : F.Num
  pub notes : String
  pub created_at : ℕ

pub record InvoiceRow (F : Float64) : Type 0 where
  pub id : String
  pub tenant_id : String
  pub invoice_number : Text
  pub customer_id : String
  pub state : String
  pub invoice_date : String
  pub subtotal : F.Num
  pub tax_amount : F.Num
  pub total : F.Num
  pub amount_due : F.Num
  pub notes : String
  pub created_at : ℕ

pub record Tables (F : Float64) : Type 0 where
  pub customers : List CustomerRow
  pub orders : List (OrderRow F)
  pub invoices : List (InvoiceRow F)

abbrev pub Sales : Float64 → Type 0
Sales F = World (Event F) (Tables F)

-- `now.Format("2006")`, and `now.UnixNano()` at the n-th call.
pub record Stamps : Type 0 where
  pub year : ℕ → Text
  pub nanos : ℕ → ℕ

-- `now.UnixNano()`
unfoldable pub unix_nano : {F : Float64} → Stamps → Exec (Sales F) ℕ
unix_nano stamps w = (ok (stamps.nanos w.calls), w)

-- `LIKE '%s%'` and the ORDER BY of the listings.
pub record Sql (F : Float64) : Type 0 where
  pub like : String → String → Bool
  pub order_customers : List CustomerRow → List CustomerRow
  pub order_orders : List (OrderRow F) → List (OrderRow F)
  pub order_invoices : List (InvoiceRow F) → List (InvoiceRow F)

-- The number of an order or an invoice.
unfoldable pub document_number : String → Text → ℕ → Text
document_number prefix year nanos = codes prefix ++ year ++ codes "-" ++ digits 6 (nanos % 1000000)

abbrev pub first_page : ℕ → ℕ
first_page n = if ltb n 1 then 1 else n

abbrev pub twenty_or : ℕ → ℕ
twenty_or n = if ltb n 1 then 20 else n

abbrev pub text_or : String → String → String
text_or default s = if s == "" then default else s

abbrev pub customer_name : String → List CustomerRow → String
customer_name i cs = elim (find (λ c. c.id == i) cs) [ some c ↦ c.name | none ↦ "" ]

module _ (F : Float64) where
  -- What is read of a customer; the rest is zero.
  abbrev pub customer_of : CustomerRow → Customer F
  customer_of c = record {
    id = c.id;
    tenant_id = c.tenant_id;
    name = c.name;
    email = c.email;
    phone = c.phone;
    company_name = c.company_name;
    tax_id = "";
    address = "";
    city = "";
    country = "";
    credit_limit = zero_float F;
    payment_terms = 0;
    currency = "";
    balance = zero_float F;
    is_active = c.is_active;
    notes = "";
    created_at = 0;
  }

  -- What is read of an order: neither its lines nor its subtotal and tax.
  abbrev pub order_of : List CustomerRow → OrderRow F → SalesOrder F
  order_of cs o = record {
    id = o.id;
    tenant_id = o.tenant_id;
    order_number = o.order_number;
    customer_id = o.customer_id;
    customer_name = customer_name o.customer_id cs;
    state = o.state;
    order_date = o.order_date;
    delivery_date = "";
    currency = "";
    subtotal = zero_float F;
    discount_amount = zero_float F;
    tax_amount = zero_float F;
    total = o.total;
    amount_paid = zero_float F;
    amount_due = zero_float F;
    notes = "";
    lines = [];
    created_at = 0;
  }

  abbrev pub invoice_of : List CustomerRow → InvoiceRow F → Invoice F
  invoice_of cs v = record {
    id = v.id;
    tenant_id = v.tenant_id;
    invoice_number = v.invoice_number;
    order_id = "";
    customer_id = v.customer_id;
    customer_name = customer_name v.customer_id cs;
    invoice_type = "";
    state = v.state;
    invoice_date = v.invoice_date;
    due_date = "";
    currency = "";
    subtotal = zero_float F;
    tax_amount = zero_float F;
    total = v.total;
    amount_paid = zero_float F;
    amount_due = v.amount_due;
    notes = "";
    lines = [];
    created_at = 0;
  }

module _ {F : Float64} where
  abbrev pub is_order : String → String → OrderRow F → Bool
  is_order i tenant o = o.id == i && o.tenant_id == tenant

  abbrev pub is_invoice : String → String → InvoiceRow F → Bool
  is_invoice i tenant v = v.id == i && v.tenant_id == tenant
