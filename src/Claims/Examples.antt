-- ===== src/Claims/Examples.antt =====
-- The theorems on the repository and the CSV writer of services/claim-service at concrete inputs.
use goshield.Prelude.{ℕ, ◌≡◌, ◌<◌, ◌≤◌, refl, String, some, List, [], ◌∷◌, ◌++◌, length, select}
use mathlib.Core.List.Permᴰ
use goshield.Go.Errors.{ok}
use goshield.Go.Float.{fixed_point}
use goshield.Go.Text.{codes}
use goshield.Go.World.{◌>>=◌}
use goshield.Claims.Domain.{Claim, ListResult}
use goshield.Claims.Csv.{csv_row, newline}
use goshield.Claims.Csv.Reader.{read_row, read_row-csv_row}
use goshield.Claims.Where.{build_where_clause, selects}
use goshield.Claims.Where.Correct.{matches, selects-build_where_clause}
use goshield.Claims.Repository.{list, page_rows, page_count, page_size_of, page_of}
use goshield.Claims.Repository.Pages.{list_bounds, pages, pages-all}
use goshield.Samples.{calm, car_claim, table, all_of_acme}

abbrev as_stored : ℕ → String → String → List (Claim fixed_point) → List (Claim fixed_point)
as_stored n column order rows = rows

selects-build_where_clause_example :
    selects (build_where_clause all_of_acme) car_claim ≡ matches car_claim all_of_acme
selects-build_where_clause_example = selects-build_where_clause car_claim all_of_acme

abbrev listing : ListResult fixed_point
listing = record {
  claims = page_rows calm (as_stored 2) all_of_acme table.store;
  total = length (select (selects (build_where_clause all_of_acme)) table.store);
  page = page_of 1;
  page_size = page_size_of 50;
  total_pages =
      page_count (length (select (selects (build_where_clause all_of_acme)) table.store))
        (page_size_of 50);
}

listed : (list calm as_stored all_of_acme table).0 ≡ ok listing
unfolding list ◌>>=◌
listed = refl

list_bounds_example :
    (length listing.claims ≤ listing.page_size)
    × (0 < listing.page_size)
    × (listing.page_size ≤ 100)
    × (0 < listing.page)
list_bounds_example = list_bounds calm as_stored all_of_acme table listing listed

abbrev acme_rows : List (Claim fixed_point)
acme_rows = select (selects (build_where_clause all_of_acme)) (car_claim ∷ [])

pages-all_example :
    pages calm as_stored all_of_acme
      (car_claim ∷ [])
      (page_count (length acme_rows) (page_size_of 50))
    ≡ acme_rows
pages-all_example =
    pages-all calm as_stored all_of_acme (car_claim ∷ []) acme_rows (λ n. refl)
      (Permᴰ.refl acme_rows)

read_row-csv_row_example :
    read_row (csv_row (codes "c-1" ∷ codes "a \"dent\", large" ∷ []) ++ newline ∷ [])
    ≡ some (codes "c-1" ∷ codes "a \"dent\", large" ∷ [])
read_row-csv_row_example = read_row-csv_row (codes "c-1") (codes "a \"dent\", large" ∷ [])
