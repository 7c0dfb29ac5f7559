-- ===== src/Index/Stats.antt =====
-- index.rs: the counts of the index, for `tuskd status` and the overview.
use tuskd.Prelude.{
  ℕ, suc, Bool, Option, none, some, List, [], ◌∷◌, length, take, ◌&&◌, ◌||◌, if◌then◌else◌, ltb,
  nat_eq,
}
use tuskd.Text.{Text, Text_eq}
use tuskd.BTreeMap.{BTreeMap, text_lt, lookup, insert}
use tuskd.Floats.{Floats}
use tuskd.Time.{Chrono, fmt_ts, trunc_ms}
use tuskd.Scope
use tuskd.Record.Kind.{type_to_string}
use tuskd.Record.Fields.{Record}
use tuskd.Record.Markdown.{is_valid_now}
use package.tuskd.Index.{Rows}

pub record IndexStats : Type 0 where
  pub total : ℕ
  pub valid : ℕ
  pub by_scope : BTreeMap ℕ
  pub by_type : BTreeMap ℕ

pub record AuthorActivity : Type 0 where
  pub author : Text
  pub records : ℕ
  pub valid : ℕ
  pub last_created : Text

abbrev pub one_more : Option ℕ → ℕ
one_more none = 1
one_more (some n) = suc n

abbrev later : Text → Text → Text
later s t = if text_lt s t then t else s

-- `ORDER BY COUNT(*) DESC, author`
abbrev busier : AuthorActivity → AuthorActivity → Bool
busier a b = ltb b.records a.records || (nat_eq a.records b.records && text_lt a.author b.author)

unfoldable pub place_author : AuthorActivity → List AuthorActivity → List AuthorActivity
unfolding text_lt
place_author a [] = a ∷ []
place_author a (b ∷ l) = let rest = place_author a l in if busier b a then b ∷ rest else a ∷ b ∷ l

unfoldable pub sort_authors : BTreeMap AuthorActivity → List AuthorActivity
unfolding place_author
sort_authors [] = []
sort_authors ((author, a) ∷ m) = place_author a (sort_authors m)

module _ {fl : Floats} {ch : Chrono} where
  unfoldable pub count_valid : Rows fl ch → ℕ
  unfolding is_valid_now
  count_valid [] = 0
  count_valid ((p, r) ∷ rows) =
      let rest = count_valid rows in if is_valid_now fl ch r then suc rest else rest

  -- `SELECT key, COUNT(*) .. GROUP BY key ORDER BY key`
  unfoldable pub count_by : (Record fl ch → Text) → Rows fl ch → BTreeMap ℕ
  unfolding insert lookup
  count_by key [] = []
  count_by key ((p, r) ∷ rows) =
      let rest = count_by key rows in insert (key r) (one_more (lookup (key r) rest)) rest

  unfoldable pub stats : Rows fl ch → IndexStats
  unfolding count_valid count_by Scope.to_string type_to_string
  stats rows = record {
    total = length rows;
    valid = count_valid rows;
    by_scope = count_by (λ r. Scope.to_string r.scope) rows;
    by_type = count_by (λ r. type_to_string r.kind) rows;
  }

  unfoldable pub since : Text → Rows fl ch → Rows fl ch
  unfolding fmt_ts text_lt
  since ts [] = []
  since ts ((p, r) ∷ rows) =
      let rest = since ts rows in
      if text_lt (fmt_ts ch r.created_at) ts then rest else (p, r) ∷ rest

  -- Records by the day of their creation, the first ten characters of the time.
  unfoldable pub created_per_day : ch.DateTime → Rows fl ch → BTreeMap ℕ
  unfolding since count_by fmt_ts trunc_ms
  created_per_day start rows =
      count_by (λ r. take 10 (fmt_ts ch r.created_at)) (since (fmt_ts ch (trunc_ms ch start)) rows)

  abbrev fresh_activity : Record fl ch → AuthorActivity
  fresh_activity r = record {
    author = r.author;
    records = 1;
    valid = if is_valid_now fl ch r then 1 else 0;
    last_created = fmt_ts ch r.created_at;
  }

  abbrev more_activity : Record fl ch → Option AuthorActivity → AuthorActivity
  more_activity r none = fresh_activity r
  more_activity r (some a) = record {
    author = a.author;
    records = suc a.records;
    valid = if is_valid_now fl ch r then suc a.valid else a.valid;
    last_created = later a.last_created (fmt_ts ch r.created_at);
  }

  unfoldable pub by_author : Rows fl ch → BTreeMap AuthorActivity
  unfolding insert lookup is_valid_now fmt_ts text_lt
  by_author [] = []
  by_author ((p, r) ∷ rows) =
      let rest = by_author rows in insert r.author (more_activity r (lookup r.author rest)) rest

  unfoldable pub author_activity : Rows fl ch → List AuthorActivity
  unfolding by_author sort_authors
  author_activity rows = sort_authors (by_author rows)
