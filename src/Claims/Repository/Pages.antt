-- ===== src/Claims/Repository/Pages.antt =====
-- services/claim-service/internal/repository/claim_repository.go: the pages of `List`.
use native.Mathlib.Nat.{lt-div-mul-add, zero-add, suc-add, zero-mul}
use mathlib.Core.List.{Permᴰ}
use goshield.Prelude.{
  ap₂, ℕ, zero, suc, ◌+◌, ◌-◌, ◌*◌, ◌≤◌, ◌<◌, ◌≡◌, refl, ap, ◌∙◌, String, List, [], ◌∷◌, ◌++◌,
  arith, length, take, drop, select, length-take-le,
}
use goshield.Go.Errors.{ok}
use goshield.Go.Float.{Float64}
use goshield.Go.World.{Env, ◌>>=◌}
use goshield.Claims.Domain.{Claim, ListFilter, ListResult}
use goshield.Claims.Where.Correct.{build_where_clause-page}
use goshield.Claims.Where.{build_where_clause, selects}
use goshield.Claims.Repository.{
  Claims, list, page_rows, page_count, page_size_of, page_of, sort_column, sort_direction,
}

module _ {A : Type 0} where
  take-zero_or : (n : ℕ) → take {A = A} n [] ≡ []
  take-zero_or zero = refl
  take-zero_or (suc n) = refl

  take_all : (n : ℕ) (xs : List A) → length xs ≤ n → take n xs ≡ xs
  take_all zero [] h = refl
  take_all (suc n) [] h = refl
  take_all zero (x ∷ xs) h = absurd (omega arith)
  take_all (suc n) (x ∷ xs) h = ap (◌∷◌ x) (take_all n xs (omega arith))

  take-add : (n s : ℕ) (xs : List A) → take n xs ++ take s (drop n xs) ≡ take (n + s) xs
  take-add zero s xs = rw zero-add
  take-add (suc n) s [] = rw (take-zero_or s, take-zero_or (suc n + s))
  take-add (suc n) s (x ∷ xs) = rw suc-add (ap (◌∷◌ x) (take-add n s xs))

length-Permᴰ : {A : Type 0} {xs ys : List A} → Permᴰ xs ys → length xs ≡ length ys
length-Permᴰ Permᴰ.nil = refl
length-Permᴰ (Permᴰ.cons e p) = ap suc (length-Permᴰ p)
length-Permᴰ (Permᴰ.swap e d) = refl
length-Permᴰ (Permᴰ.trans p q) = length-Permᴰ p ∙ length-Permᴰ q

-- The pages are long enough for all rows.
page_count-covers : (total size : ℕ) → 0 < size → total ≤ page_count total size * size
unfolding page_count
page_count-covers total size pos =
    omega (arith, lt-div-mul-add {a = total + size - 1} {b = size} pos)

page_size_of_range : (n : ℕ) → (0 < page_size_of n) × (page_size_of n ≤ 100)
unfolding page_size_of
page_size_of_range n = ground arith

-- A size above 100 becomes 20.
pub page_size_of_large : (n : ℕ) → 100 < n → page_size_of n ≡ 20
unfolding page_size_of
page_size_of_large n h = ground arith

page_of_pos : (n : ℕ) → 0 < page_of n
unfolding page_of
page_of_pos n = ground arith

page_of-suc : (n : ℕ) → page_of (suc n) - 1 ≡ n
unfolding page_of
page_of-suc n = ground arith

module _ {F : Float64} (env : Env)
    (sorted : ℕ → String → String → List (Claim F) → List (Claim F)) where
  -- A listed page is the page of its filter.
  pub list_lem :
      (f : ListFilter F) (w : Claims F) (r : ListResult F)
      → (list env sorted f w).0 ≡ ok r
      → (r.claims ≡ page_rows env (sorted (w.calls + 2)) f w.store)
        × (r.page_size ≡ page_size_of f.page_size)
        × (r.page ≡ page_of f.page)
        × (r.total ≡ length (select (selects (build_where_clause f)) w.store))
        × (r.total_pages ≡ page_count r.total r.page_size)
  unfolding list ◌>>=◌
  list_lem f w r e = ground arith

  -- A page that is listed has at most `page_size` rows, `page_size` lies between 1 and 100, and the
  -- number of the page is at least 1.
  pub list_bounds :
      (f : ListFilter F) (w : Claims F) (r : ListResult F)
      → (list env sorted f w).0 ≡ ok r
      → (length r.claims ≤ r.page_size) × (0 < r.page_size) × (r.page_size ≤ 100) × (0 < r.page)
  list_bounds f w r e =
      let page = list_lem f w r e in
      rw (page.0, page.1, page.2)
        (
          length-take-le (page_size_of f.page_size) _,
          (page_size_of_range f.page_size).0,
          (page_size_of_range f.page_size).1,
          page_of_pos f.page,
        )

  -- The rows of pages 1, …, n, one page behind the other; each page is a query of its own.
  pub pages : ListFilter F → List (Claim F) → ℕ → List (Claim F)
  pages f rows zero = []
  pages f rows (suc n) =
      pages f rows n ++ page_rows env (sorted (suc n)) (record f { page = suc n }) rows

  abbrev pub selected : ListFilter F → List (Claim F) → List (Claim F)
  selected f rows = select (selects (build_where_clause f)) rows

  abbrev ordered : ℕ → ListFilter F → List (Claim F) → List (Claim F)
  ordered n f rows =
      sorted n (sort_column f.sort_by) (sort_direction f.sort_order) (selected f rows)

  page_rows-suc :
      (f : ListFilter F) (rows : List (Claim F)) (n : ℕ)
      → page_rows env (sorted (suc n)) (record f { page = suc n }) rows
        ≡ take
            (page_size_of f.page_size)
            (drop (n * page_size_of f.page_size) (ordered (suc n) f rows))
  unfolding page_of
  page_rows-suc f rows n = rw build_where_clause-page (
      ap
        (λ k.
          take (page_size_of f.page_size)
            (drop (k * page_size_of f.page_size) (ordered (suc n) f rows)))
        (page_of-suc n))

  -- The queries give the rows that the filter selects in one order.
  abbrev pub Alike : ListFilter F → List (Claim F) → List (Claim F) → Type 0
  Alike f rows ranked =
      (n : ℕ)
      → sorted n (sort_column f.sort_by) (sort_direction f.sort_order) (selected f rows) ≡ ranked

  pages-take :
      (f : ListFilter F) (rows ranked : List (Claim F)) (n : ℕ)
      → Alike f rows ranked
      → pages f rows n ≡ take (n * page_size_of f.page_size) ranked
  unfolding pages
  pages-take f rows ranked zero alike = rw zero-mul
  pages-take f rows ranked (suc n) alike =
      ap₂ ◌++◌ (pages-take f rows ranked n alike) (
        page_rows-suc f rows n
        ∙ ap (λ xs. take (page_size_of f.page_size) (drop (n * page_size_of f.page_size) xs))
            (alike (suc n)))
      ∙ take-add (n * page_size_of f.page_size) (page_size_of f.page_size) ranked
      ∙ ap (λ k. take k ranked) (omega arith)

  -- If the queries of all pages put the selected rows in the same order, each once, and no row is
  -- written in between, then the pages that the count announces are together the selected rows, in
  -- that order and each once. (The queries need not do so for rows that are equal in the column.)
  pub pages-all :
      (f : ListFilter F) (rows ranked : List (Claim F))
      → Alike f rows ranked
      → Permᴰ ranked (selected f rows)
      → pages f rows (page_count (length (selected f rows)) (page_size_of f.page_size)) ≡ ranked
  pages-all f rows ranked alike same =
      let total = length (selected f rows) in
      let size = page_size_of f.page_size in
      pages-take f rows ranked (page_count total size) alike
      ∙ take_all (page_count total size * size) ranked (
          omega (
            arith,
            page_count-covers total size (page_size_of_range f.page_size).0,
            length-Permᴰ same,
          ))
