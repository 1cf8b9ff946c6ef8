-- ===== src/Sales/Usecase.antt =====
-- goerp/internal/sales/usecase/sales_usecase.go. The listings and the searches only pass the call on
-- to the repository.
pub mod Orders
pub mod Tenants
use goshield.Prelude.{ℕ, String, true, List, map, ◌==◌}
use goshield.Go.Errors.{refuse_if}
use goshield.Go.Float.{Float64, Arithmetic, sum}
use goshield.Go.World.{Env, Exec, ◌>>=◌, ◌>>◌, pure, lift, publish}
use goshield.Sales.Domain.{
  Customer, SalesOrder, SalesOrderLine, Invoice, sales_order_confirmed, invoice_created,
}
use goshield.Sales.Tables.{Sales, Stamps, Sql, text_or}
use goshield.Sales.Repository

module _ {F : Float64} (A : Arithmetic F) where
  -- `l.Quantity * l.UnitPrice * (1 - l.DiscountPct/100)`
  abbrev pub line_total : SalesOrderLine F → F.Num
  line_total l =
      A.mul (A.mul l.quantity l.unit_price)
        (A.sub (F.decimal 1 0) (A.div l.discount_pct (F.decimal 100 0)))

  abbrev pub line_tax : SalesOrderLine F → F.Num
  line_tax l = A.div (A.mul (line_total l) l.tax_rate) (F.decimal 100 0)

  abbrev pub priced_line : SalesOrderLine F → SalesOrderLine F
  priced_line l = record l {
    subtotal = line_total l;
    tax_amount = line_tax l;
    total = A.add (line_total l) (line_tax l);
  }

  -- The loop over the lines, which adds up two sums.
  unfoldable pub priced : SalesOrder F → SalesOrder F
  priced o =
      let subtotal = sum A (map line_total o.lines) in
      let tax = sum A (map line_tax o.lines) in
      record o {
        lines = map priced_line o.lines;
        subtotal = subtotal;
        tax_amount = tax;
        total = A.add subtotal tax;
      }

module _ {F : Float64} (A : Arithmetic F) (env : Env) (sql : Sql F) (stamps : Stamps) where
  -- The currency is set on the answer alone.
  unfoldable pub create_customer : Customer F → Exec (Sales F) (Customer F)
  create_customer c = do
    lift (refuse_if (c.name == "") "customer name is required")
    Repository.create_customer env sql stamps
        (record c { is_active = true; currency = text_or "USD" c.currency })

  unfoldable pub create_sales_order : SalesOrder F → Exec (Sales F) (SalesOrder F)
  create_sales_order o = do
    lift (refuse_if (o.customer_id == "") "customer is required")
    Repository.create_sales_order env sql stamps (priced A o)

  -- The state that the order has is not looked at, nor whether there is one.
  unfoldable pub confirm_order : String → String → Exec (Sales F) (Unit {0})
  confirm_order i tenant = do
    Repository.update_order_state env sql stamps i tenant "confirmed"
    publish (sales_order_confirmed i tenant)

  unfoldable pub cancel_order : String → String → Exec (Sales F) (Unit {0})
  cancel_order i tenant = Repository.update_order_state env sql stamps i tenant "cancelled"

  unfoldable pub create_invoice : Invoice F → Exec (Sales F) (Unit {0})
  create_invoice v = do
    lift (refuse_if (v.customer_id == "") "customer is required")
    made ←
        Repository.create_invoice env sql stamps
          (record v { invoice_type = text_or "invoice" v.invoice_type })
    publish (invoice_created made)
