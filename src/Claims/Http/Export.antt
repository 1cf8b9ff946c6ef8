-- ===== src/Claims/Http/Export.antt =====
-- services/claim-service/internal/handler/http.go: what `ExportClaims` writes.
use goshield.Prelude.{
  ℕ, ◌≤◌, ◌≡◌, refl, String, List, [], ◌∷◌, ◌++◌, some, arith, length, Bool-cases, inl, inr, ◌==◌,
}
use goshield.Go.Errors.{Result, ok, err}
use goshield.Go.Float.{Float64}
use goshield.Go.World.{Env, ◌>>=◌}
use goshield.Claims.Domain.{Claim, ListResult}
use goshield.Claims.Csv.{newline, csv_row}
use goshield.Claims.Csv.Reader.{read_row, read_row-csv_row}
use goshield.Claims.Repository.{Claims}
use goshield.Claims.Repository.Pages.{list_bounds, list_lem, page_size_of_large}
use goshield.Claims.Service.{Config, list_claims}
use goshield.Claims.Http.{
  exported, Identity, ListQuery, Response, csv, export_claims_handler, export_filter, export_rows,
  export_fields, export_header,
}

module _ {F : Float64} (env : Env) (cfg : Config F)
    (sorted : ℕ → String → String → List (Claim F) → List (Claim F))
    (format_float : F.Num → ℕ → List ℕ) (format_time : ℕ → List ℕ) where
  listed_at_most_20 :
      (who : Identity) (q : ListQuery F) (w : Claims F) (r : ListResult F)
      → (list_claims env cfg sorted
          (export_filter env cfg sorted format_float format_time who q)
          w).0
        ≡ ok r
      → length r.claims ≤ 20
  unfolding list_claims export_filter
  listed_at_most_20 who q w r e =
      let filter = export_filter env cfg sorted format_float format_time who q in
      let bounds = list_bounds env sorted filter w r e in
      let page = list_lem env sorted filter w r e in
      let size = page_size_of_large 10000 (omega arith) in omega (arith, bounds.0, page.1, size)

  exported_claims :
      (o : Result (ListResult F)) (w : Claims F) (r : Response F)
      → (exported env cfg sorted format_float format_time o w).0 ≡ ok r
      → r.status ≡ 200
      → (l : ListResult F) × (o ≡ ok l)
        × (r.body
            ≡ csv (
                export_header env cfg sorted format_float format_time
                ++ export_rows env cfg sorted format_float format_time l.claims))
  unfolding exported ◌>>=◌
  exported_claims (ok l) w r e s = (l, refl, ground arith)
  exported_claims (err x) w r e s = absurd (ground arith)

  -- An export that is answered by 200 holds the header and at most 20 rows, however many claims
  -- match: the repository takes the size 10000 for 20.
  pub export_at_most_20 :
      (who : Identity) (q : ListQuery F) (w : Claims F) (r : Response F)
      → (export_claims_handler env cfg sorted format_float format_time who q w).0 ≡ ok r
      → r.status ≡ 200
      → (rows : List (Claim F)) × (length rows ≤ 20)
        × (r.body
            ≡ csv (
                export_header env cfg sorted format_float format_time
                ++ export_rows env cfg sorted format_float format_time rows))
  unfolding export_claims_handler ◌>>=◌
  export_at_most_20 who q w r e s = elim (Bool-cases (who.company_id == "")) [
    | inl none_given ↦ absurd (ground arith)
    | inr given ↦
        let listing =
          list_claims env cfg sorted (export_filter env cfg sorted format_float format_time who q)
            w in
        let found = exported_claims listing.0 listing.1 r (ground arith) s in
        (found.0.claims, listed_at_most_20 who q w found.0 found.1, found.2)
  ]

  -- A reader finds the fields of an exported row, and in the last of them the escaped notes.
  pub read_row-export :
      (c : Claim F)
      → read_row (csv_row (export_fields env cfg sorted format_float format_time c) ++ newline ∷ [])
        ≡ some (export_fields env cfg sorted format_float format_time c)
  unfolding export_fields
  read_row-export c = read_row-csv_row _ _
