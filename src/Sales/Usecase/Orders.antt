-- ===== src/Sales/Usecase/Orders.antt =====
-- goerp/internal/sales: an order from its creation on.
use goshield.Prelude.{
  ℕ, ◌+◌, ◌≡◌, refl, String, true, false, List, [], ◌∷◌, ◌++◌, map, some, find, update_where, ◌==◌,
  eq_refl, any, find-update_where, find_last, ap, ◌&&◌,
}
use goshield.Go.Errors.{ok}
use goshield.Go.Float.{Float64, Arithmetic, sum}
use goshield.Go.Text.{codes_eq}
use goshield.Go.World.{Env, ◌>>=◌}
use goshield.Sales.Domain.{SalesOrderLine, SalesOrder, sales_order_confirmed}
use goshield.Sales.Tables.{
  unix_nano, is_order, Sales, Stamps, Sql, OrderRow, document_number, order_of, text_or,
}
use goshield.Sales.Repository
use goshield.Sales.Usecase.{
  create_sales_order, confirm_order, cancel_order, priced, priced_line, line_total, line_tax,
}

module _ {F : Float64} (A : Arithmetic F) (env : Env) (sql : Sql F) (stamps : Stamps) where
  -- An order of the tenant that is cancelled and then confirmed is confirmed, and the bus is told,
  -- if the database accepts both.
  pub confirm_order-cancelled :
      (i tenant : String) (o : OrderRow F) (w : Sales F)
      → find (is_order i tenant) w.store.orders ≡ some o
      → env.fails w.calls ≡ false
      → env.fails (w.calls + 1) ≡ false
      → let w' =
          (confirm_order A env sql stamps i tenant
            (cancel_order A env sql stamps i tenant w).1).1 in
        (find (is_order i tenant) w'.store.orders ≡ some (record o { state = "confirmed" }))
        × (w'.published ≡ w.published ++ sales_order_confirmed i tenant ∷ [])
  unfolding confirm_order cancel_order Repository.update_order_state ◌>>=◌
  confirm_order-cancelled i tenant o w hit first second =
      let cancelled : OrderRow F → OrderRow F = λ x. record x { state = "cancelled" } in
      let confirmed : OrderRow F → OrderRow F = λ x. record x { state = "confirmed" } in
      rw (first, second)
        (
          find-update_where (is_order i tenant) confirmed
              (update_where (is_order i tenant) cancelled w.store.orders) (cancelled o) (λ x. refl)
              (find-update_where (is_order i tenant) cancelled w.store.orders o (λ x. refl) hit),
          refl,
        )

  subtotals :
      (ls : List (SalesOrderLine F))
      → map (λ l. l.subtotal) (map (priced_line A) ls) ≡ map (line_total A) ls
  subtotals [] = refl
  subtotals (l ∷ ls) = ap (λ xs. line_total A l ∷ xs) (subtotals ls)

  taxes :
      (ls : List (SalesOrderLine F))
      → map (λ l. l.tax_amount) (map (priced_line A) ls) ≡ map (line_tax A) ls
  taxes [] = refl
  taxes (l ∷ ls) = ap (λ xs. line_tax A l ∷ xs) (taxes ls)

  -- A created order can be read back by its tenant, if the calls succeed and no row has its id or
  -- its number: with its number and state, and as its total the sum of the subtotals plus the sum of
  -- the taxes of its lines; but the lines are gone.
  pub get-create_sales_order :
      (o : SalesOrder F) (w : Sales F)
      → (o.customer_id == "") ≡ false
      → env.fails (w.calls + 1) ≡ false
      → env.fails (w.calls + 1 + 1) ≡ false
      → any
          (λ x.
            x.tenant_id == o.tenant_id
            && codes_eq x.order_number (
                document_number "SO-"
                  (stamps.year (env.now (w.calls + 1)))
                  (stamps.nanos (w.calls + 1))))
          w.store.orders
        ≡ false
      → any (is_order (env.uuid w.calls) o.tenant_id) w.store.orders ≡ false
      → let r = create_sales_order A env sql stamps o w in
        let got = Repository.get_sales_order env sql stamps (env.uuid w.calls) o.tenant_id r.1 in
        (made : SalesOrder F) × (read : SalesOrder F) × (r.0 ≡ ok made)
        × (got.0 ≡ ok read)
        × (read.order_number ≡ made.order_number)
        × (read.state ≡ made.state)
        × (read.total
            ≡ A.add
                (sum A (map (λ l. l.subtotal) made.lines))
                (sum A (map (λ l. l.tax_amount) made.lines)))
        × (read.lines ≡ [])
  unfolding create_sales_order Repository.create_sales_order Repository.insert_order unix_nano
      Repository.get_sales_order priced ◌>>=◌
  get-create_sales_order o w named first second unique fresh =
      let i : String = env.uuid w.calls in
      let now : ℕ = env.now (w.calls + 1) in
      let made : SalesOrder F = record (priced A o) {
        id = i;
        created_at = now;
        order_date = text_or (env.format_date now) o.order_date;
        state = text_or "draft" o.state;
        order_number = document_number "SO-" (stamps.year now) (stamps.nanos (w.calls + 1));
      } in
      let row : OrderRow F = record {
        id = i;
        tenant_id = o.tenant_id;
        order_number = made.order_number;
        customer_id = o.customer_id;
        state = made.state;
        order_date = made.order_date;
        subtotal = made.subtotal;
        tax_amount = made.tax_amount;
        total = made.total;
        notes = o.notes;
        created_at = now;
      } in
      let hit : is_order i o.tenant_id row ≡ true = rw (eq_refl i, eq_refl o.tenant_id) refl in
      rw (named, first, unique, second)
        (rw (find_last (is_order i o.tenant_id) w.store.orders row fresh hit) (
          made,
          order_of F w.store.customers row,
          refl,
          refl,
          refl,
          refl,
          rw (subtotals o.lines, taxes o.lines) refl,
          refl,
        ))
