-- ===== src/Sales/Repository.antt =====
-- goerp/internal/sales/repository/sales_repo.go: the statements.
use goshield.Prelude.{
  ℕ, ◌-◌, ◌*◌, String, Bool, true, ◌&&◌, ◌||◌, Option, none, some, List, [], ◌∷◌, ◌++◌, map, ◌==◌,
  any, find, select, take, drop, length, update_where, if◌then◌else◌,
}
use goshield.Go.Errors.{Result, ok, err, errorf, external, or_zero}
use goshield.Go.Float.{Float64}
use goshield.Go.Text.{codes_eq}
use goshield.Go.World.{
  Env, Exec, ◌>>=◌, ◌>>◌, pure, call, attempt, reads, writes, new_uuid, time_now,
}
use goshield.Sales.Domain.{Customer, SalesOrder, Invoice, SalesFilter}
use goshield.Sales.Tables.{
  unix_nano, CustomerRow, OrderRow, InvoiceRow, Tables, Sales, Stamps, Sql, document_number,
  first_page, twenty_or, text_or, customer_of, order_of, invoice_of, is_order, is_invoice,
}

module _ {F : Float64} (env : Env) (sql : Sql F) (stamps : Stamps) where
  abbrev is_customer_listed : String → String → CustomerRow → Bool
  is_customer_listed tenant search c =
      c.tenant_id == tenant
      && (search == ""
          || sql.like search c.name
          || sql.like search c.email
          || sql.like search c.company_name)

  unfoldable pub list_customers : String → String → ℕ → Exec (Sales F) (List (Customer F) × ℕ)
  list_customers tenant search page = do
    customers ← call env (
        reads (λ s. ok (
          map (customer_of F) (
            take 20 (
              drop ((first_page page - 1) * 20)
                (sql.order_customers (select (is_customer_listed tenant search) s.customers)))))))
    total ← attempt (
        call env (reads (λ s. ok (length (select (is_customer_listed tenant search) s.customers)))))
    pure (customers, or_zero total)

  abbrev found : {A : Type 0} → String → Option A → Result A
  found message none = err (errorf message)
  found message (some a) = ok a

  unfoldable pub get_customer : String → String → Exec (Sales F) (Customer F)
  get_customer i tenant = do
    c ← call env (
        reads (λ s.
          found "customer not found" (find (λ c. c.id == i && c.tenant_id == tenant) s.customers)))
    pure (customer_of F c)

  unfoldable pub create_customer : Customer F → Exec (Sales F) (Customer F)
  create_customer c = do
    i ← new_uuid env
    now ← time_now env
    call env (
        writes (λ s. record s {
          customers =
              s.customers
              ++ record {
                id = i;
                tenant_id = c.tenant_id;
                name = c.name;
                email = c.email;
                phone = c.phone;
                company_name = c.company_name;
                is_active = true;
                created_at = now;
              }
                ∷ [];
        }))
    pure (record c { id = i; created_at = now })

  abbrev is_order_listed : SalesFilter → OrderRow F → Bool
  is_order_listed f o =
      o.tenant_id == f.tenant_id
      && (f.state == "" || o.state == f.state)
      && (f.customer_id == "" || o.customer_id == f.customer_id)

  unfoldable pub list_sales_orders : SalesFilter → Exec (Sales F) (List (SalesOrder F) × ℕ)
  list_sales_orders f = do
    orders ← call env (
        reads (λ s. ok (
          map (order_of F s.customers) (
            take (twenty_or f.page_size) (
              drop ((first_page f.page - 1) * twenty_or f.page_size)
                (sql.order_orders (select (is_order_listed f) s.orders)))))))
    total ← attempt (call env (reads (λ s. ok (length (select (is_order_listed f) s.orders)))))
    pure (orders, or_zero total)

  order_found : Tables F → Option (OrderRow F) → Result (SalesOrder F)
  order_found s none = err (errorf "order not found")
  order_found s (some o) = ok (order_of F s.customers o)

  unfoldable pub get_sales_order : String → String → Exec (Sales F) (SalesOrder F)
  unfolding order_found
  get_sales_order i tenant =
      call env (reads (λ s. order_found s (find (is_order i tenant) s.orders)))

  -- A row that the unique index on the number refuses.
  unfoldable pub insert_order : OrderRow F → Exec (Sales F) (Unit {0})
  insert_order row w =
      if any (λ o. o.tenant_id == row.tenant_id && codes_eq o.order_number row.order_number)
        w.store.orders
      then (err (external w.calls), w)
      else (ok tt, record w { store = record (w.store) { orders = w.store.orders ++ row ∷ [] } })

  -- The lines of the order are not written.
  unfoldable pub create_sales_order : SalesOrder F → Exec (Sales F) (SalesOrder F)
  create_sales_order o = do
    i ← new_uuid env
    now ← time_now env
    nanos ← unix_nano stamps
    let made = record o {
      id = i;
      created_at = now;
      order_date = text_or (env.format_date now) o.order_date;
      state = text_or "draft" o.state;
      order_number = document_number "SO-" (stamps.year now) nanos;
    }
    call env (
        insert_order (record {
          id = made.id;
          tenant_id = made.tenant_id;
          order_number = made.order_number;
          customer_id = made.customer_id;
          state = made.state;
          order_date = made.order_date;
          subtotal = made.subtotal;
          tax_amount = made.tax_amount;
          total = made.total;
          notes = made.notes;
          created_at = made.created_at;
        }))
    pure made

  -- The number of rows is not looked at.
  unfoldable pub update_order_state : String → String → String → Exec (Sales F) (Unit {0})
  update_order_state i tenant state = call env (
      writes (λ s. record s {
        orders = update_where (is_order i tenant) (λ o. record o { state = state }) s.orders;
      }))

  abbrev is_invoice_listed : SalesFilter → InvoiceRow F → Bool
  is_invoice_listed f v = v.tenant_id == f.tenant_id && (f.state == "" || v.state == f.state)

  unfoldable pub list_invoices : SalesFilter → Exec (Sales F) (List (Invoice F) × ℕ)
  list_invoices f = do
    invoices ← call env (
        reads (λ s. ok (
          map (invoice_of F s.customers) (
            take (twenty_or f.page_size) (
              drop ((first_page f.page - 1) * twenty_or f.page_size)
                (sql.order_invoices (select (is_invoice_listed f) s.invoices)))))))
    total ← attempt (call env (reads (λ s. ok (length (select (is_invoice_listed f) s.invoices)))))
    pure (invoices, or_zero total)

  unfoldable pub get_invoice : String → String → Exec (Sales F) (Invoice F)
  get_invoice i tenant = call env (
      reads (λ s. elim (find (is_invoice i tenant) s.invoices) [
        | none ↦ err (errorf "invoice not found")
        | some v ↦ ok (invoice_of F s.customers v)
      ]))

  unfoldable pub insert_invoice : InvoiceRow F → Exec (Sales F) (Unit {0})
  insert_invoice row w =
      if any (λ v. v.tenant_id == row.tenant_id && codes_eq v.invoice_number row.invoice_number)
        w.store.invoices
      then (err (external w.calls), w)
      else (
        ok tt,
        record w { store = record (w.store) { invoices = w.store.invoices ++ row ∷ [] } },
      )

  -- The amount due is the total; the lines of the invoice are not written.
  unfoldable pub create_invoice : Invoice F → Exec (Sales F) (Invoice F)
  create_invoice v = do
    i ← new_uuid env
    now ← time_now env
    nanos ← unix_nano stamps
    let made = record v {
      id = i;
      created_at = now;
      invoice_date = text_or (env.format_date now) v.invoice_date;
      state = text_or "draft" v.state;
      invoice_number = document_number "INV-" (stamps.year now) nanos;
      amount_due = v.total;
    }
    call env (
        insert_invoice (record {
          id = made.id;
          tenant_id = made.tenant_id;
          invoice_number = made.invoice_number;
          customer_id = made.customer_id;
          state = made.state;
          invoice_date = made.invoice_date;
          subtotal = made.subtotal;
          tax_amount = made.tax_amount;
          total = made.total;
          amount_due = made.amount_due;
          notes = made.notes;
          created_at = made.created_at;
        }))
    pure made

  unfoldable pub update_invoice_state : String → String → String → Exec (Sales F) (Unit {0})
  update_invoice_state i tenant state = call env (
      writes (λ s. record s {
        invoices = update_where (is_invoice i tenant) (λ v. record v { state = state }) s.invoices;
      }))
