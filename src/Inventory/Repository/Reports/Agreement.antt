-- ===== src/Inventory/Repository/Reports/Agreement.antt =====
-- goerp/internal/inventory/repository/inventory_repo.go: the count of products low in stock, which is
-- computed by SQL, against the flags of the summary, which are computed in Go.
use goshield.Prelude.{
  String, ◌≡◌, refl, ap₂, true, false, List, [], ◌∷◌, map, select, length, ◌==◌, arith,
}
use goshield.Go.Float.{Float64, Arithmetic, zero_float}
use goshield.Inventory.Domain.{Product, StockMove}
use goshield.Inventory.Repository.{
  Tables, is_move_of, arriving, leaving, received, issued, current_stock,
}
use goshield.Inventory.Repository.Reports.{
  is_tracked, summary, summaries, is_done_move_of, arriving_done, leaving_done, done_stock,
  counts_low, low_stock_count,
}
use goshield.Go.Float.{sum_from}

module _ {F : Float64} (A : Arithmetic F)
    (adds_zero : (x : F.Num) → A.add x (zero_float F) ≡ x) where
  -- A column that is 0 for a move that is not done may as well leave the move out.
  columns :
      (f g : StockMove F → F.Num) (p : String) (acc : F.Num) (ms : List (StockMove F))
      → ((m : StockMove F) → (m.state == "done") ≡ true → f m ≡ g m)
      → ((m : StockMove F) → (m.state == "done") ≡ false → f m ≡ zero_float F)
      → sum_from A acc (map f (select (is_move_of p) ms))
        ≡ sum_from A acc (map g (select (is_done_move_of A p) ms))
  columns f g p acc [] agree silent = refl
  columns f g p acc (m ∷ ms) agree silent = ground (
    arith,
    agree m,
    silent m,
    adds_zero acc,
    columns f g p acc ms agree silent,
    columns f g p (A.add acc (f m)) ms agree silent,
  )

  done_arriving : (m : StockMove F) → (m.state == "done") ≡ true → arriving m ≡ arriving_done A m
  done_arriving m e = ground arith

  not_arriving : (m : StockMove F) → (m.state == "done") ≡ false → arriving m ≡ zero_float F
  not_arriving m e = ground arith

  done_leaving : (m : StockMove F) → (m.state == "done") ≡ true → leaving m ≡ leaving_done A m
  done_leaving m e = ground arith

  not_leaving : (m : StockMove F) → (m.state == "done") ≡ false → leaving m ≡ zero_float F
  not_leaving m e = ground arith

  pub current_stock-done :
      (p : String) (ms : List (StockMove F)) → current_stock A p ms ≡ done_stock A p ms
  unfolding current_stock received issued done_stock
  current_stock-done p ms =
      ap₂ A.sub (columns arriving (arriving_done A) p (zero_float F) ms done_arriving not_arriving)
        (columns leaving (leaving_done A) p (zero_float F) ms done_leaving not_leaving)

  counted :
      (tenant : String) (s : Tables F) (ps : List (Product F))
      → length (select (counts_low A tenant s.moves) ps)
        ≡ length (select (λ x. x.is_low) (map (summary A s) (select (is_tracked A tenant) ps)))
  unfolding counts_low summary
  counted tenant s [] = refl
  counted tenant s (p ∷ ps) = ground (arith, current_stock-done p.id s.moves, counted tenant s ps)

  -- The count of low products in the statistics is the number of summaries that are marked low, if
  -- adding 0 changes no number.
  pub low_stock_count-summaries :
      (tenant : String) (s : Tables F)
      → low_stock_count A tenant s ≡ length (select (λ x. x.is_low) (summaries A tenant s))
  unfolding low_stock_count summaries
  low_stock_count-summaries tenant s = counted tenant s s.products
