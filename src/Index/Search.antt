-- ===== src/Index/Search.antt =====
-- index.rs: `Indexer::search`, over the rows of the index. SQLite's full text and the arithmetic on
-- floats are those of the `Engine`.
pub mod Found
use tuskd.Prelude.{
  ℕ, Bool, true, false, Option, none, some, List, [], ◌∷◌, ◌++◌, map, length, take, all, any,
  contains, not, ℕ_eq, ◌==◌, ◌&&◌, ◌||◌, if◌then◌else◌, nat_eq,
}
use mathlib.Core.Option
use tuskd.Text.{Text, Text_eq, codes, is_whitespace, trim}
use tuskd.Text.Number.{ℤ}
use tuskd.BTreeMap.{text_lt}
use tuskd.Floats.{Floats}
use tuskd.Time.{Chrono, fmt_ts, trunc_ms}
use tuskd.Scope
use tuskd.Scope.{Scope}
use tuskd.Record.Kind.{RecordType, type_to_string}
use tuskd.Record.Fields.{Record}
use tuskd.Record.Markdown.{success_rate}
use tuskd.Vault.Paths.{FilePath}
use package.tuskd.Index.{Rows}
use package.tuskd.Index.Terms.{terms, join_or, is_ranked}

pub record SearchQuery (ch : Chrono) : Type 0 where
  pub query : Text
  pub scopes : Option (List Scope)
  pub kind : Option RecordType
  pub tags : Option (List Text)
  pub as_of : Option ch.DateTime
  pub include_invalid : Bool
  pub k : ℕ

pub record SearchHit (fl : Floats) : Type 0 where
  pub id : Text
  pub kind : Text
  pub scope : Text
  pub author : Text
  pub created_at : Text
  pub valid_at : Text
  pub invalid_at : Option Text
  pub supersedes : Option Text
  pub entities : List Text
  pub tags : List Text
  pub trust : fl.F64
  pub uses : ℤ
  pub successes : fl.F64
  pub success_rate : fl.F64
  pub trigger : Option Text
  pub version : Option ℤ
  pub score : fl.F64
  pub snippet : Text
  pub path : FilePath

-- A row beside its rank.
abbrev pub Ranked : Floats → Chrono → Type 0
Ranked fl ch = fl.F64 × (FilePath × Record fl ch)

-- `matches`: the rows of `fts MATCH ?` with their `bm25`, in the order of that rank.
pub record Engine (fl : Floats) (ch : Chrono) : Type 0 where
  pub matches : Text → Rows fl ch → List (Ranked fl ch)
  pub neg_f64 : fl.F64 → fl.F64
  pub mul_f64 : fl.F64 → fl.F64 → fl.F64
  pub ln_f64 : fl.F64 → fl.F64
  pub gt_f64 : fl.F64 → fl.F64 → Bool
  pub one_f64 : fl.F64
  pub uses_weight : fl.F64
  pub trust_weight : fl.F64

-- `a <= b` on texts
abbrev text_le : Text → Text → Bool
text_le a b = not (text_lt b a)

abbrev after : Text → Option Text → Bool
after t none = true
after t (some end) = text_lt t end

abbrev pub no_scope : Option (List Scope) → Bool
no_scope (some []) = true
no_scope _ = false

module _ {fl : Floats} {ch : Chrono} where
  -- The conditions on times.
  unfoldable pub in_time : SearchQuery ch → Record fl ch → Bool
  unfolding fmt_ts trunc_ms text_lt
  in_time q r = elim q.as_of [
    | some t ↦
        let ts = fmt_ts ch (trunc_ms ch t) in
        text_le (fmt_ts ch r.valid_at) ts && after ts (Option.map (fmt_ts ch) r.invalid_at)
    | none ↦ q.include_invalid || elim r.invalid_at [ none ↦ true | some _ ↦ false ]
  ]

  abbrev pub of_kind : Option RecordType → Record fl ch → Bool
  of_kind none r = true
  of_kind (some kind) r = type_to_string r.kind == type_to_string kind

  abbrev pub in_scopes : Option (List Scope) → Record fl ch → Bool
  in_scopes none r = true
  in_scopes (some scopes) r = any (λ s. Scope.to_string r.scope == Scope.to_string s) scopes

  -- The `WHERE` of the query.
  unfoldable pub admits : SearchQuery ch → Record fl ch → Bool
  unfolding in_time type_to_string Scope.to_string any
  admits q r = in_time q r && (of_kind q.kind r && in_scopes q.scopes r)

  abbrev pub has_tags : Option (List Text) → Record fl ch → Bool
  has_tags none r = true
  has_tags (some wanted) r = all (λ t. contains t r.tags) wanted

  unfoldable pub select : (Record fl ch → Bool) → List (Ranked fl ch) → List (Ranked fl ch)
  select p [] = []
  select p ((rank, row) ∷ rows) =
      let rest = select p rows in if p row.1 then (rank, row) ∷ rest else rest

  -- `ORDER BY r.created_at DESC, r.id DESC`
  abbrev pub newer : Record fl ch → Record fl ch → Bool
  newer r s =
      text_lt (fmt_ts ch s.created_at) (fmt_ts ch r.created_at)
      || (fmt_ts ch s.created_at == fmt_ts ch r.created_at && text_lt s.id r.id)

  unfoldable pub place : Ranked fl ch → List (Ranked fl ch) → List (Ranked fl ch)
  unfolding text_lt fmt_ts
  place row [] = row ∷ []
  place row (other ∷ rows) =
      let rest = place row rows in
      if newer other.1.1 row.1.1 then other ∷ rest else row ∷ other ∷ rows

  unfoldable pub newest_first : List (Ranked fl ch) → List (Ranked fl ch)
  unfolding place
  newest_first [] = []
  newest_first (row ∷ rows) = place row (newest_first rows)

  abbrev pub unranked : Rows fl ch → List (Ranked fl ch)
  unranked rows = map (λ row. (fl.zero_f64, row)) rows

  module _ (eng : Engine fl ch) where
    unfoldable pub score : Bool → fl.F64 → Record fl ch → fl.F64
    unfolding success_rate
    score ranked rank r =
        if ranked
        then fl.add_f64
            (fl.add_f64 (fl.add_f64 (eng.neg_f64 rank) (success_rate fl ch r)) (
              eng.mul_f64 eng.uses_weight (eng.ln_f64 (fl.add_f64 eng.one_f64 (fl.of_i64 r.uses)))))
            (eng.mul_f64 eng.trust_weight r.trust)
        else fl.zero_f64

    unfoldable pub to_hit : Bool → Ranked fl ch → SearchHit fl
    unfolding score type_to_string Scope.to_string fmt_ts success_rate trim
    to_hit ranked (rank, (path, r)) = record {
      id = r.id;
      kind = type_to_string r.kind;
      scope = Scope.to_string r.scope;
      author = r.author;
      created_at = fmt_ts ch r.created_at;
      valid_at = fmt_ts ch r.valid_at;
      invalid_at = Option.map (fmt_ts ch) r.invalid_at;
      supersedes = r.supersedes;
      entities = r.entities;
      tags = r.tags;
      trust = r.trust;
      uses = r.uses;
      successes = r.successes;
      success_rate = success_rate fl ch r;
      trigger = r.trigger;
      version = r.version;
      score = score ranked rank r;
      snippet = take 240 (trim r.body);
      path = path;
    }

    -- The comparison of `sort_by`: the greater score, then the smaller id.
    abbrev pub better : SearchHit fl → SearchHit fl → Bool
    better a b =
        if eng.gt_f64 a.score b.score
        then true
        else if eng.gt_f64 b.score a.score
        then false
        else text_lt a.id b.id

    unfoldable pub insert_hit : SearchHit fl → List (SearchHit fl) → List (SearchHit fl)
    unfolding text_lt
    insert_hit h [] = h ∷ []
    insert_hit h (g ∷ hits) =
        let rest = insert_hit h hits in if better g h then g ∷ rest else h ∷ g ∷ hits

    unfoldable pub sort_hits : List (SearchHit fl) → List (SearchHit fl)
    unfolding insert_hit
    sort_hits [] = []
    sort_hits (h ∷ hits) = insert_hit h (sort_hits hits)

    -- The rows that the statement gives, at most 500.
    unfoldable pub queried : List Text → SearchQuery ch → Rows fl ch → List (Ranked fl ch)
    unfolding select admits newest_first
    queried [] q rows = take 500 (newest_first (select (admits q) (unranked rows)))
    queried (t ∷ ts) q rows = take 500 (select (admits q) (eng.matches (join_or (t ∷ ts)) rows))

    unfoldable pub search_terms : List Text → SearchQuery ch → Rows fl ch → List (SearchHit fl)
    unfolding queried select to_hit sort_hits all contains
    search_terms ts q rows =
        let k = if nat_eq q.k 0 then 10 else q.k in
        let hits = map (to_hit (is_ranked ts)) (select (has_tags q.tags) (queried ts q rows)) in
        take k (if is_ranked ts then sort_hits hits else hits)

    unfoldable pub search : SearchQuery ch → Rows fl ch → List (SearchHit fl)
    unfolding terms search_terms
    search q rows = if no_scope q.scopes then [] else search_terms (terms q.query) q rows
