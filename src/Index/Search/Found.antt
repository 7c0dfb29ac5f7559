-- ===== src/Index/Search/Found.antt =====
-- index.rs: what `search` finds, and in which order.
use tuskd.Prelude.{
  Bool, true, false, some, List, [], ◌∷◌, ◌≡◌, refl, map, length, subst, any, length-take, arith,
  ◌==◌, ℕ_eq, if◌then◌else◌, Every, In, Every-take, Every-map, Every-of_In, inl, inr, Bool-cases,
  ◌&&◌, ◌≤◌, nat_eq,
}
use tuskd.Text.{Text, Text_eq}
use tuskd.Floats.{Floats}
use tuskd.Time.{Chrono}
use tuskd.Scope
use tuskd.Scope.{Scope}
use tuskd.Record.Fields.{Record}
use tuskd.Vault.Paths.{FilePath}
use package.tuskd.Index.{Rows}
use package.tuskd.Index.Terms.{is_ranked, terms, join_or}
use package.tuskd.Index.Search.{
  SearchQuery, SearchHit, Ranked, Engine, in_time, of_kind, in_scopes, admits, has_tags, select,
  newer, place, newest_first, unranked, to_hit, better, insert_hit, sort_hits, queried,
  search_terms, search, no_scope,
}

last_test : (a b c : Bool) → (a && (b && c)) ≡ true → c ≡ true
last_test a b c h = ground arith

module _ {fl : Floats} {ch : Chrono} where
  -- The full text gives rows of the index.
  pub record EngineLaws (eng : Engine fl ch) : Type 0 where
    pub of_rows :
        (text : Text) (rows : Rows fl ch) → Every (λ m. In m.1 rows) (eng.matches text rows)

  select-Every :
      (P : Ranked fl ch → Type 0) (p : Record fl ch → Bool) (rows : List (Ranked fl ch))
      → Every P rows
      → Every (λ m. P m × (p m.1.1 ≡ true)) (select p rows)
  unfolding select
  select-Every P p [] h = tt
  select-Every P p ((rank, row) ∷ rows) h = elim (Bool-cases (p row.1)) [
    | inl e ↦ rw e ((h.0, e), select-Every P p rows h.1)
    | inr e ↦ rw e (select-Every P p rows h.1)
  ]

  place-Every :
      (P : Ranked fl ch → Type 0) (row : Ranked fl ch) (rows : List (Ranked fl ch))
      → P row
      → Every P rows
      → Every P (place row rows)
  unfolding place
  place-Every P row [] h hs = (h, tt)
  place-Every P row (other ∷ rows) h hs = elim (Bool-cases (newer other.1.1 row.1.1)) [
    | inl e ↦ rw e (hs.0, place-Every P row rows h hs.1)
    | inr e ↦ rw e (h, hs)
  ]

  newest_first-Every :
      (P : Ranked fl ch → Type 0) (rows : List (Ranked fl ch))
      → Every P rows
      → Every P (newest_first rows)
  unfolding newest_first
  newest_first-Every P [] h = tt
  newest_first-Every P (row ∷ rows) h = place-Every P row _ h.0 (newest_first-Every P rows h.1)

  pub admits-scopes :
      (q : SearchQuery ch) (r : Record fl ch) (scopes : List Scope)
      → q.scopes ≡ some scopes
      → admits q r ≡ true
      → any (λ s. Scope.to_string r.scope == Scope.to_string s) scopes ≡ true
  unfolding admits
  admits-scopes q r scopes e h =
      subst (λ o. in_scopes o r ≡ true) e
        (last_test (in_time q r) (of_kind q.kind r) (in_scopes q.scopes r) h)

  pub length-search :
      (eng : Engine fl ch) (q : SearchQuery ch) (rows : Rows fl ch)
      → length (search eng q rows) ≤ (if nat_eq q.k 0 then 10 else q.k)
  unfolding search search_terms
  length-search eng q rows = elim (Bool-cases (no_scope q.scopes)) [
    | inl e ↦ rw e (omega arith)
    | inr e ↦ rw e (length-take _ _)
  ]

  module _ (eng : Engine fl ch) where
    insert_hit-Every :
        (P : SearchHit fl → Type 0) (h : SearchHit fl) (hits : List (SearchHit fl))
        → P h
        → Every P hits
        → Every P (insert_hit eng h hits)
    unfolding insert_hit
    insert_hit-Every P h [] p ps = (p, tt)
    insert_hit-Every P h (g ∷ hits) p ps = elim (Bool-cases (better eng g h)) [
      | inl e ↦ rw e (ps.0, insert_hit-Every P h hits p ps.1)
      | inr e ↦ rw e (p, ps)
    ]

    sort_hits-Every :
        (P : SearchHit fl → Type 0) (hits : List (SearchHit fl))
        → Every P hits
        → Every P (sort_hits eng hits)
    unfolding sort_hits
    sort_hits-Every P [] h = tt
    sort_hits-Every P (g ∷ hits) h = insert_hit-Every P g _ h.0 (sort_hits-Every P hits h.1)

    -- The hit shows a row of the index that the query admits.
    pub record Shows (q : SearchQuery ch) (rows : Rows fl ch) (h : SearchHit fl) : Type 0 where
      pub row : FilePath × Record fl ch
      pub rank : fl.F64
      pub there : In row rows
      pub admitted : admits q row.1 ≡ true
      pub tagged : has_tags q.tags row.1 ≡ true
      pub shown : h ≡ to_hit eng (is_ranked (terms q.query)) (rank, row)

    module _ (laws : EngineLaws eng) where
      queried-Every :
          (ts : List Text) (q : SearchQuery ch) (rows : Rows fl ch)
          → Every (λ m. In m.1 rows × (admits q m.1.1 ≡ true)) (queried eng ts q rows)
      unfolding queried
      queried-Every [] q rows = Every-take _ 500 _ (
          newest_first-Every _ _ (
            select-Every (λ m. In m.1 rows) (admits q) (unranked rows)
              (Every-map (λ row. In row rows) _ _ rows (λ row i. i)
                (Every-of_In (λ row. In row rows) rows (λ row i. i)))))
      queried-Every (t ∷ ts) q rows =
          Every-take _ 500 _
            (select-Every (λ m. In m.1 rows) (admits q) _ (laws.of_rows (join_or (t ∷ ts)) rows))

      -- Every hit of a search shows a row of the index that meets the query's conditions: its times, its
      -- type, its scope and all wanted tags.
      pub search-Shows :
          (q : SearchQuery ch) (rows : Rows fl ch) → Every (Shows q rows) (search eng q rows)
      unfolding search search_terms
      search-Shows q rows = elim (Bool-cases (no_scope q.scopes)) [
        | inl e ↦ rw e tt
        | inr e ↦ rw e (Every-take _ _ _ (ranked_or_not (is_ranked (terms q.query)) _ shown))
      ]
        where
          shown : Every (Shows q rows) (
              map
                (to_hit eng (is_ranked (terms q.query)))
                (select (has_tags q.tags) (queried eng (terms q.query) q rows)))
          shown =
              Every-map _ _ _ _
                (λ m h. record {
                  row = m.1;
                  rank = m.0;
                  there = h.0.0;
                  admitted = h.0.1;
                  tagged = h.1;
                  shown = refl;
                })
                (select-Every _ _ _ (queried-Every (terms q.query) q rows))

          ranked_or_not :
              (b : Bool) (hits : List (SearchHit fl))
              → Every (Shows q rows) hits
              → Every (Shows q rows) (if b then sort_hits eng hits else hits)
          ranked_or_not true hits h = sort_hits-Every _ hits h
          ranked_or_not false hits h = h
