-- ===== src/Inventory/Examples.antt =====
-- goerp/internal/inventory: a shop with one product and one warehouse, and what its operations do.
use goshield.Prelude.{select, ◌≡◌, refl, true, false, none, some, List, [], ◌∷◌, ◌++◌, length}
use goshield.Go.Errors.{ok}
use goshield.Go.Float.Whole.{pos, whole, exact, add-zero}
use goshield.Go.Text.{codes, fields}
use goshield.Go.World.{◌>>=◌}
use goshield.Samples.{calm}
use goshield.Inventory.Domain.{Product, StockMove, StockAdjustment, stock_moved, stock_low}
use goshield.Inventory.Codes.{generate_sku, generate_code, generate_move_reference}
use goshield.Inventory.Repository.{
  Inventory, Sql, current_stock, view, received, issued, get_product,
}
use goshield.Inventory.Repository.Moves
use goshield.Inventory.Repository.Reports.{low_stock_count, summaries}
use goshield.Inventory.Repository.Reports.Agreement.{low_stock_count-summaries}
use goshield.Inventory.Checks.{check_move, check_locations, check_adjustment}
use goshield.Inventory.Checks.Listed.{IsListed}
use goshield.Inventory.Usecase.{Draws}
use goshield.Inventory.Stock.{create_stock_move, adjust_stock, adjustment}
use goshield.Inventory.Stock.Ledger.{Books, create_stock_move-Books}
use goshield.Inventory.Stock.Nowhere.{adjust_stock-nowhere}
use goshield.Inventory.Stock.Journal.{IsAnnounced, move, check, run, run-IsAnnounced}
use goshield.Inventory.Stock.Alerts.{out_move-alerts}
use goshield.Inventory.Requests.{
  Request, create_product, update_product, delete_product, stock, serve_all,
}
use goshield.Inventory.Requests.Invariant.{IsCatalogue, serve_all-IsCatalogue}

abbrev sqlite : Sql whole
sqlite = record {
  like = λ s t. true;
  since = λ s t. true;
  until = λ s t. true;
  day = λ t. t;
  this_month = λ t. true;
  order_products = λ column direction ps. ps;
  order_moves = λ ms. ms;
}

abbrev draws : Draws
draws = record { intn = λ n bound. 42; compact_date = λ t. codes "20240102" }

abbrev lamp : Product whole
lamp = record {
  id = "p-1";
  tenant_id = "acme";
  sku = codes "LAMP";
  name = ("en", codes "Lamp") ∷ [];
  description = "";
  category_id = "";
  uom = "unit";
  base_price = pos 10;
  cost_price = pos 8;
  sale_price = pos 12;
  tax_rate = pos 20;
  barcode = "";
  qr_code = "";
  track_inventory = true;
  track_batch = false;
  track_serial = false;
  has_expiry = false;
  min_stock_level = pos 3;
  reorder_point = pos 5;
  is_active = true;
  image_url = "";
  tags = [];
  created_at = 1;
  updated_at = 1;
}

abbrev delivery : StockMove whole
delivery = record {
  id = "";
  tenant_id = "acme";
  product_id = "p-1";
  variant_id = "";
  from_location_id = "";
  to_location_id = "shelf";
  quantity = pos 9;
  unit_cost = pos 8;
  batch_number = "";
  serial_number = "";
  expiry_date = none;
  move_type = "in";
  reference = [];
  state = "";
  notes = [];
  created_by = "ann";
  created_at = 0;
  done_at = none;
}

abbrev sale : StockMove whole
sale = record delivery {
  from_location_id = "shelf";
  to_location_id = "";
  quantity = pos 6;
  move_type = "out";
}

abbrev shop : Inventory whole
shop = record {
  store = record {
    products = lamp ∷ [];
    categories = [];
    variants = [];
    warehouses = [];
    locations = [];
    moves = [];
    batches = [];
    checks = [];
  };
  published = [];
  calls = 0;
}

abbrev found : StockAdjustment whole
found = record {
  product_id = "p-1";
  location_id = "";
  quantity = pos 4;
  reason = codes "count";
  notes = [];
}

abbrev stocked : Inventory whole
stocked = record shop {
  store = record (shop.store) { moves = record delivery { id = "m-1"; state = "done" } ∷ [] };
  published = stock_moved (record delivery { id = "m-1"; state = "done" }) ∷ [];
}

sku_example : generate_sku 42 (codes "Laptop Pro 15") ≡ codes "LP-0042"
unfolding generate_sku fields
sku_example = refl

-- The comment of `generateSKU` says that the digits of a name take part: "LP15-3842".
code_example : generate_code 7 (codes "Main store") 5 ≡ codes "MAINS"
unfolding generate_code fields
code_example = refl

create_stock_move-Books_example :
    Books exact delivery shop (create_stock_move exact calm sqlite draws delivery shop)
create_stock_move-Books_example = create_stock_move-Books exact calm sqlite draws delivery shop

adjust_stock-nowhere_example :
    current_stock exact "p-1"
      (adjust_stock exact calm sqlite draws found "acme" "ann" shop).1.store.moves
    ≡ current_stock exact "p-1" shop.store.moves
adjust_stock-nowhere_example =
    adjust_stock-nowhere exact add-zero calm sqlite draws found "acme" "ann" shop "p-1" refl

-- The same adjustment reports success.
adjust_stock_nowhere_ok : (adjust_stock exact calm sqlite draws found "acme" "ann" shop).0 ≡ ok tt
unfolding adjust_stock check_adjustment adjustment get_product Moves.create_stock_move ◌>>=◌
adjust_stock_nowhere_ok = refl

-- What is left of the lamps is below their reorder point.
abbrev sold : StockMove whole
sold = record sale {
  id = "u-0";
  created_at = 1001;
  state = "done";
  done_at = some 1000;
  reference = codes "OUT-20240102-00042";
}

out_move-alerts_example :
    (run exact calm sqlite draws (move sale ∷ check 0 ∷ []) stocked).published
    ≡ (create_stock_move exact calm sqlite draws sale stocked).1.published
      ++ stock_low "p-1" (codes "Lamp") (codes "LAMP") (pos 3) (pos 5) "acme" ∷ []
unfolding create_stock_move check_move check_locations generate_move_reference
    Moves.create_stock_move Moves.move_row ◌>>=◌ view current_stock received issued
out_move-alerts_example =
    out_move-alerts exact calm sqlite draws sale sold stocked lamp refl refl refl refl refl refl

run-IsAnnounced_example :
    IsAnnounced exact calm sqlite draws
      (run exact calm sqlite draws (move delivery ∷ move sale ∷ check 0 ∷ []) shop)
run-IsAnnounced_example =
    run-IsAnnounced exact calm sqlite draws (move delivery ∷ move sale ∷ check 0 ∷ []) shop refl

low_stock_count-summaries_example :
    low_stock_count exact "acme" shop.store
    ≡ length (select (λ x. x.is_low) (summaries exact "acme" shop.store))
low_stock_count-summaries_example = low_stock_count-summaries exact add-zero "acme" shop.store

lamp-IsListed : IsListed lamp
lamp-IsListed = record {
  named = refl;
  coded = refl;
  cost = refl;
  sale = refl;
  margin = λ s c. refl;
  rate_low = refl;
  rate_high = refl;
  level = refl;
  reorder = refl;
}

abbrev requests : List (Request whole)
requests =
    create_product (record lamp { sku = codes " desk " })
    ∷ update_product (record lamp { name = []; sale_price = pos 15 })
    ∷ stock (move delivery)
    ∷ delete_product "p-1" "acme"
    ∷ []

serve_all-IsCatalogue_example : IsCatalogue (serve_all exact calm sqlite draws requests shop)
serve_all-IsCatalogue_example =
    serve_all-IsCatalogue exact calm sqlite draws requests shop (lamp-IsListed, tt)
