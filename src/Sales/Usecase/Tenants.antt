-- ===== src/Sales/Usecase/Tenants.antt =====
-- goerp/internal/sales: what the requests of one tenant do to the rows of another. The handlers set
-- the tenant of what is created from the caller's token.
use goshield.Prelude.{
  ◌≡◌, ◌∙◌, refl, String, Bool, true, false, [], ◌∷◌, ◌++◌, select, select-append_row,
  select-update_where, ◌==◌, eq_iff, if◌then◌else◌, arith, update_where,
}
use goshield.Go.Errors.{Result, ok, err, external}
use goshield.Go.Float.{Float64, Arithmetic}
use goshield.Go.World.{Env}
use goshield.Go.World.Steps.{Preorder, Steps, steps_rules}
use goshield.Sales.Domain.{Customer, SalesOrder, Invoice}
use goshield.Sales.Tables.{
  unix_nano, Sales, Tables, Stamps, Sql, CustomerRow, OrderRow, InvoiceRow, is_order,
}
use goshield.Sales.Repository
use goshield.Sales.Usecase.{
  create_customer, create_sales_order, confirm_order, cancel_order, create_invoice, priced,
}

pub data Request (F : Float64) : Type 0 where
  new_customer : Customer F → Request F
  new_order : SalesOrder F → Request F
  confirm : String → Request F
  cancel : String → Request F
  new_invoice : Invoice F → Request F

module _ {F : Float64} where
  abbrev pub SameFor : String → Tables F → Tables F → Type 0
  SameFor u s t =
      (select (λ c. c.tenant_id == u) t.customers ≡ select (λ c. c.tenant_id == u) s.customers)
      × (select (λ o. o.tenant_id == u) t.orders ≡ select (λ o. o.tenant_id == u) s.orders)
      × (select (λ v. v.tenant_id == u) t.invoices ≡ select (λ v. v.tenant_id == u) s.invoices)

  pub record Apart (u : String) (s t : Tables F) : Type 0 where
    pub same : SameFor u s t

  apart : (u : String) → Preorder (Apart u)
  apart u = record {
    same = λ s. record { same = (refl, refl, refl) };
    chain = λ s t v p q. record {
      same = (q.same.0 ∙ p.same.0, q.same.1 ∙ p.same.1, q.same.2 ∙ p.same.2);
    };
  }

module _ {F : Float64} (A : Arithmetic F) (env : Env) (sql : Sql F) (stamps : Stamps) where
  abbrev pub serve : String → Request F → Sales F → Sales F
  serve t (new_customer c) w = (create_customer A env sql stamps (record c { tenant_id = t }) w).1
  serve t (new_order o) w = (create_sales_order A env sql stamps (record o { tenant_id = t }) w).1
  serve t (confirm i) w = (confirm_order A env sql stamps i t w).1
  serve t (cancel i) w = (cancel_order A env sql stamps i t w).1
  serve t (new_invoice v) w = (create_invoice A env sql stamps (record v { tenant_id = t }) w).1

  module _ (t u : String) (other : (t == u) ≡ false) where
    insert_order-Steps :
        (row : OrderRow F)
        → (row.tenant_id == u) ≡ false
        → Steps (Apart u) (Repository.insert_order env sql stamps row)
    unfolding Repository.insert_order
    insert_order-Steps row hidden = record { from = λ w. at w _ }
      where
        at :
            (w : Sales F) (b : Bool)
            → Apart u w.store
                (if◌then◌else◌ {A = Result (Unit {0}) × Sales F} b
                  (err (external w.calls), w)
                  (
                    ok tt,
                    record w { store = record (w.store) { orders = w.store.orders ++ row ∷ [] } },
                  )).1.store
        at w true = (apart u).same w.store
        at w false = record {
          same = (refl, select-append_row (λ o. o.tenant_id == u) w.store.orders row hidden, refl);
        }

    unix_nano-Steps : Steps (Apart {F = F} u) (unix_nano stamps)
    unfolding unix_nano
    unix_nano-Steps = record { from = λ w. (apart u).same w.store }

    insert_invoice-Steps :
        (row : InvoiceRow F)
        → (row.tenant_id == u) ≡ false
        → Steps (Apart u) (Repository.insert_invoice env sql stamps row)
    unfolding Repository.insert_invoice
    insert_invoice-Steps row hidden = record { from = λ w. at w _ }
      where
        at :
            (w : Sales F) (b : Bool)
            → Apart u w.store
                (if◌then◌else◌ {A = Result (Unit {0}) × Sales F} b
                  (err (external w.calls), w)
                  (
                    ok tt,
                    record w {
                      store = record (w.store) { invoices = w.store.invoices ++ row ∷ [] };
                    },
                  )).1.store
        at w true = (apart u).same w.store
        at w false = record {
          same =
              (refl, refl, select-append_row (λ v. v.tenant_id == u) w.store.invoices row hidden);
        }

    hidden_customer :
        (row : CustomerRow) (s : Tables F)
        → (row.tenant_id == u) ≡ false
        → Apart u s (record s { customers = s.customers ++ row ∷ [] })
    hidden_customer row s hidden = record {
      same = (select-append_row (λ c. c.tenant_id == u) s.customers row hidden, refl, refl);
    }

    hidden_state :
        (i state : String) (s : Tables F)
        → Apart u s (record s {
          orders = update_where (is_order i t) (λ o. record o { state = state }) s.orders;
        })
    hidden_state i state s = record {
      same = (
        refl,
        select-update_where (λ o. o.tenant_id == u) (is_order i t) (λ o. record o { state = state })
            s.orders (λ o hit. ground (arith, eq_iff o.tenant_id t, other)),
        refl,
      );
    }

    ruleset rules = (steps_rules, apart)

    new_customer-Steps :
        (c : Customer F)
        → Steps (Apart u) (create_customer A env sql stamps (record c { tenant_id = t }))
    unfolding create_customer Repository.create_customer
    new_customer-Steps c = search (rules, hidden_customer, other) depth 12

    new_order-Steps :
        (o : SalesOrder F)
        → Steps (Apart u) (create_sales_order A env sql stamps (record o { tenant_id = t }))
    unfolding create_sales_order Repository.create_sales_order priced
    new_order-Steps o = search (rules, insert_order-Steps, unix_nano-Steps, other) depth 12

    new_invoice-Steps :
        (v : Invoice F)
        → Steps (Apart u) (create_invoice A env sql stamps (record v { tenant_id = t }))
    unfolding create_invoice Repository.create_invoice
    new_invoice-Steps v = search (rules, insert_invoice-Steps, unix_nano-Steps, other) depth 12

    confirm-Steps : (i : String) → Steps (Apart u) (confirm_order A env sql stamps i t)
    unfolding confirm_order Repository.update_order_state
    confirm-Steps i = search (rules, hidden_state) depth 12

    cancel-Steps : (i : String) → Steps (Apart u) (cancel_order A env sql stamps i t)
    unfolding cancel_order Repository.update_order_state
    cancel-Steps i = search (rules, hidden_state) depth 12

    -- A request of one tenant leaves the customers, orders and invoices of every other tenant as they
    -- are, whichever of its calls fail.
    pub serve-SameFor : (r : Request F) (w : Sales F) → SameFor u w.store (serve t r w).store
    serve-SameFor (new_customer c) w = ((new_customer-Steps c).from w).same
    serve-SameFor (new_order o) w = ((new_order-Steps o).from w).same
    serve-SameFor (confirm i) w = ((confirm-Steps i).from w).same
    serve-SameFor (cancel i) w = ((cancel-Steps i).from w).same
    serve-SameFor (new_invoice v) w = ((new_invoice-Steps v).from w).same
