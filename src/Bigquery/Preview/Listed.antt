-- ===== src/Bigquery/Preview/Listed.antt =====
-- A page that is listed shows what a query of it would, and no query is billed for it.
use mathlib.Core.Bool.{true≢false}
use data_looker.Prelude.{
  ℕ, zero, suc, ◌+◌, ◌-◌, ◌%◌, ◌^◌, ◌≡◌, refl, ap, ◌∙◌, true, ◌||◌, some, List, [], ◌∷◌, map, ltb,
  length, take, drop, arith, Option-cases, inl, inr, min, length-take,
}
use data_looker.Text.{Text, codes}
use data_looker.Error.{ok}
use data_looker.Drivers.{Preview}
use data_looker.Bigquery.Api.{Field, Row, Table}
use data_looker.Bigquery.Value.{Readers}
use data_looker.Bigquery.Query.{Client, column_of, cells, or_nothing}
use data_looker.Bigquery.Preview.{
  unversioned, got, Listing, Tables, is_kind, total_of, listed_result, is_plain, list_page, preview,
  at_point, page, or_query,
}

take-take : {A : Type 0} (n k : ℕ) (xs : List A) → take n (take k xs) ≡ take (min n k) xs
take-take zero k xs = let e : min 0 k ≡ 0 = omega arith in rw e refl
take-take (suc n) zero xs = let e : min (suc n) 0 ≡ 0 = omega arith in rw e refl
take-take (suc n) (suc k) [] =
    let e : min (suc n) (suc k) ≡ suc (min n k) = omega arith in rw e refl
take-take (suc n) (suc k) (x ∷ xs) =
    let e : min (suc n) (suc k) ≡ suc (min n k) = omega arith in
    rw e (ap (λ l. x ∷ l) (take-take n k xs))

length-drop : {A : Type 0} (n : ℕ) (xs : List A) → length (drop n xs) ≡ length xs - n
length-drop zero xs = omega arith
length-drop (suc n) [] = omega arith
length-drop (suc n) (x ∷ xs) = omega (arith, length-drop n xs)

-- A listing of the table's rows from the offset on, `k` of them or as many as there are: BigQuery may
-- end its answer before it has given what was asked for.
abbrev pub Lists : ℕ → List Row → Preview → Listing → Type 0
Lists k whole request listing =
    (or_nothing listing.rows ≡ take k (drop request.offset whole))
    × (total_of listing.total_rows ≡ some (length whole))

truncated_iff :
    (k limit offset n rows : ℕ)
    → rows ≡ min k (n - offset)
    → (ltb limit rows || ltb (offset + limit) n) ≡ ltb (offset + limit) n
truncated_iff k limit offset n rows e = ground arith

listed_result-Lists :
    (readers : Readers) (request : Preview) (elapsed : ℕ) (fields : List Field) (listing : Listing)
    (k : ℕ) (whole : List Row)
    → Lists k whole request listing
    → listed_result readers request elapsed fields listing ≡ record {
      columns = map column_of fields;
      rows =
          map
            (λ row. cells readers row fields)
            (take (min request.limit k) (drop request.offset whole));
      truncated = ltb (request.offset + request.limit) (length whole);
      elapsed_ms = elapsed % 2 ^ 32;
    }
unfolding listed_result
listed_result-Lists readers request elapsed fields listing k whole (e, t) =
    rw
      (
        e,
        t,
        take-take request.limit k (drop request.offset whole),
        truncated_iff k request.limit request.offset (length whole)
            (length (take k (drop request.offset whole)))
            (length-take k (drop request.offset whole)
              ∙ ap (min k) (length-drop request.offset whole)),
      )
      refl

module _ (client : Client) (tables : Tables client.Server) (project_id location : Text)
    (readers : Readers) where
  page_plain :
      (fuel elapsed : ℕ) (request : Preview) (s : client.Server)
      → is_plain request ≡ true
      → page client tables project_id location fuel readers request elapsed s
        ≡ or_query client tables project_id location fuel readers request elapsed
            (list_page client tables project_id location readers request elapsed s)
  unfolding page or_query
  page_plain fuel elapsed request s plain = rw plain refl

  list_page-listing :
      (elapsed : ℕ) (request : Preview) (found : Table) (listing : Listing)
      (s s' s'' : client.Server)
      → tables.table project_id request.schema request.table s ≡ (got (ok found), s')
      → is_kind (codes "TABLE") found.kind ≡ true
      → tables.list project_id request.schema request.table request.offset (suc request.limit) s'
        ≡ (got (ok listing), s'')
      → list_page client tables project_id location readers request elapsed s
        ≡ (ok (some (listed_result readers request elapsed (or_nothing found.schema) listing)), s'')
  unfolding list_page
  list_page-listing elapsed request found listing s s' s'' t kind l = rw (t, kind, l) refl

  -- A page with no filter, no order and no past, of a table that BigQuery lists, shows the table's
  -- rows from the offset on, as many as the page takes or, where BigQuery ends its one answer
  -- before, as many as that holds; it says that there are more exactly if the table goes on past
  -- the end of the page, however few rows the answer holds, if BigQuery says how many there are.
  -- Nothing is asked but the table and the listing, so no query is billed.
  pub preview-listed :
      (fuel elapsed : ℕ) (request : Preview) (found : Table) (listing : Listing) (k : ℕ)
      (whole : List Row) (s s' s'' : client.Server)
      → is_plain request ≡ true
      → tables.table project_id request.schema request.table s ≡ (got (ok found), s')
      → is_kind (codes "TABLE") found.kind ≡ true
      → tables.list project_id request.schema request.table request.offset (suc request.limit) s'
        ≡ (got (ok listing), s'')
      → Lists k whole request listing
      → preview client tables project_id location fuel readers request elapsed s
        ≡ some (
          ok (record {
            result = record {
              columns = map column_of (or_nothing found.schema);
              rows =
                  map
                    (λ row. cells readers row (or_nothing found.schema))
                    (take (min request.limit k) (drop request.offset whole));
              truncated = ltb (request.offset + request.limit) (length whole);
              elapsed_ms = elapsed % 2 ^ 32;
            };
            versions = [];
          }),
          s'',
        )
  unfolding preview or_query
  preview-listed fuel elapsed request found listing k whole s s' s'' plain t kind l h =
      elim (Option-cases request.as_of) [
        | inr (at, e) ↦ absurd (true≢false (ground (arith, plain, e)))
        | inl e ↦
            ap (at_point client tables project_id location fuel readers request elapsed s) e
            ∙ page_plain fuel elapsed request s plain
            ∙ ap (or_query client tables project_id location fuel readers request elapsed)
                (list_page-listing elapsed request found listing s s' s'' t kind l)
            ∙ ap (λ r. some (ok (unversioned r), s''))
                (listed_result-Lists readers request elapsed (or_nothing found.schema) listing k
                  whole h)
      ]
