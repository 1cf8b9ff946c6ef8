-- ===== src/Sales/Examples.antt =====
-- goerp/internal/sales: an order of two lines, and what becomes of it.
use goshield.Prelude.{◌==◌, ◌+◌, ◌≡◌, refl, some, [], ◌∷◌, ◌++◌, map, find}
use goshield.Go.Errors.{ok}
use goshield.Go.Float.{sum}
use goshield.Go.Float.Whole.{pos, whole, exact}
use goshield.Go.Text.{codes}
use goshield.Go.World.{◌>>=◌}
use goshield.Samples.{calm}
use goshield.Sales.Domain.{SalesOrder, SalesOrderLine, sales_order_confirmed}
use goshield.Sales.Tables.{unix_nano, document_number, Sales, Stamps, Sql, OrderRow, is_order}
use goshield.Sales.Repository
use goshield.Sales.Usecase.{priced, create_sales_order, confirm_order, cancel_order}
use goshield.Sales.Usecase.Orders.{confirm_order-cancelled, get-create_sales_order}
use goshield.Sales.Usecase.Tenants.{confirm, serve, SameFor, serve-SameFor}

abbrev sqlite : Sql whole
sqlite = record {
  like = λ s t. s == t;
  order_customers = λ cs. cs;
  order_orders = λ os. os;
  order_invoices = λ vs. vs;
}

abbrev stamps : Stamps
stamps = record { year = λ t. codes "2024"; nanos = λ n. 1234567 + n }

abbrev line : SalesOrderLine whole
line = record {
  id = "";
  order_id = "";
  product_id = "p-1";
  description = "";
  quantity = pos 3;
  unit_price = pos 200;
  discount_pct = pos 0;
  tax_rate = pos 10;
  subtotal = pos 0;
  tax_amount = pos 0;
  total = pos 0;
}

abbrev lamps : SalesOrder whole
lamps = record {
  id = "";
  tenant_id = "acme";
  order_number = [];
  customer_id = "cu-1";
  customer_name = "";
  state = "";
  order_date = "";
  delivery_date = "";
  currency = "";
  subtotal = pos 0;
  discount_amount = pos 0;
  tax_amount = pos 0;
  total = pos 0;
  amount_paid = pos 0;
  amount_due = pos 0;
  notes = "";
  lines = line ∷ record line { quantity = pos 1 } ∷ [];
  created_at = 0;
}

abbrev row : OrderRow whole
row = record {
  id = "so-1";
  tenant_id = "acme";
  order_number = codes "SO-2023-000001";
  customer_id = "cu-1";
  state = "draft";
  order_date = "2023-05-05";
  subtotal = pos 10;
  tax_amount = pos 1;
  total = pos 11;
  notes = "";
  created_at = 5;
}

abbrev shop : Sales whole
shop = record {
  store = record { customers = []; orders = row ∷ []; invoices = [] };
  published = [];
  calls = 0;
}

confirm_order-cancelled_example :
    let w' =
      (confirm_order exact calm sqlite stamps "so-1" "acme"
        (cancel_order exact calm sqlite stamps "so-1" "acme" shop).1).1 in
    (find (is_order "so-1" "acme") w'.store.orders ≡ some (record row { state = "confirmed" }))
    × (w'.published ≡ shop.published ++ sales_order_confirmed "so-1" "acme" ∷ [])
confirm_order-cancelled_example =
    confirm_order-cancelled exact calm sqlite stamps "so-1" "acme" row shop refl refl refl

get-create_sales_order_example :
    let r = create_sales_order exact calm sqlite stamps lamps shop in
    let got = Repository.get_sales_order calm sqlite stamps "u-0" "acme" r.1 in
    (made : SalesOrder whole) × (read : SalesOrder whole) × (r.0 ≡ ok made)
    × (got.0 ≡ ok read)
    × (read.order_number ≡ made.order_number)
    × (read.state ≡ made.state)
    × (read.total
        ≡ exact.add
            (sum exact (map (λ l. l.subtotal) made.lines))
            (sum exact (map (λ l. l.tax_amount) made.lines)))
    × (read.lines ≡ [])
unfolding document_number
get-create_sales_order_example =
    get-create_sales_order exact calm sqlite stamps lamps shop refl refl refl refl refl

-- 4 lamps at 200, and 10 percent of tax.
lamps_total :
    map (λ o. o.total) (create_sales_order exact calm sqlite stamps lamps shop).1.store.orders
    ≡ pos 11 ∷ pos 880 ∷ []
unfolding create_sales_order Repository.create_sales_order Repository.insert_order document_number
    unix_nano priced ◌>>=◌
lamps_total = refl

serve-SameFor_example :
    SameFor "umbrella" shop.store
      (serve exact calm sqlite stamps "acme" (confirm "so-1") shop).store
serve-SameFor_example =
    serve-SameFor exact calm sqlite stamps "acme" "umbrella" refl (confirm "so-1") shop
