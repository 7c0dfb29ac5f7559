-- ===== src/Tools/Found.antt =====
-- tools.rs: what an agent can find with `memory_search` and `skill_list`.
use tuskd.Prelude.{
  ℕ_eq, Bool, true, false, Option, some, none, List, [], ◌∷◌, ◌≡◌, ◌≤◌, refl, sym, ap, subst, ◌∙◌,
  Bool-cases, inl, inr, all, any, Every, In, Every-mono, length, nat_eq, arith, if◌then◌else◌, ◌==◌,
}
use tuskd.Text.{Text, codes, Text_eq, text_eq_iff}
use tuskd.Text.Number.{ℤ, pos, negsuc}
use tuskd.Errors.{Result, ok, err}
use tuskd.Exec.{lift}
use tuskd.Exec.Keeps.{lift-Keeps}
use tuskd.Exec.Triples.{After, Triple, >>=-Triple, Keeps-Triple, gets-Triple, pure-Triple}
use tuskd.Floats.{Floats}
use tuskd.Scope
use tuskd.Scope.{Scope}
use tuskd.Scope.Roundtrip.{to_string-injective}
use tuskd.Keyring.{can, find_agent, AgentEntry}
use tuskd.Keyring.Pattern.{read}
use tuskd.Record.Fields.{Record}
use tuskd.Vault.Paths.{FilePath}
use tuskd.Journal.{Services}
use tuskd.Index.{Rows}
use tuskd.Index.Search.{Engine, SearchHit, SearchQuery, search, to_hit}
use tuskd.Index.Search.Found.{EngineLaws, Shows, search-Shows, admits-scopes, length-search}
use package.tuskd.Tools.Args.{Value, get_arg, arg_str, arg_str_list, as_i64}
use package.tuskd.Tools.Handlers.{TuskContext, Reply, hits, check}
use package.tuskd.Tools.Search.{
  checked_scopes, scopes_to_search, memory_search, skill_list, limit, asked, skills_in, time_of,
  some_type,
}
use package.tuskd.Tools.Searches.{scopes_to_search-can}
use package.tuskd.Tools.Reads.{Result-cases}

limit_lem : (z : Option ℤ) → limit z ≤ 50
limit_lem none = omega arith
limit_lem (some (pos n)) = ground arith
limit_lem (some (negsuc n)) = omega arith

-- A scope with the text of one of the scopes is one of them.
allowed_lem :
    (P : Scope → Bool) (s : Scope) (scopes : List Scope)
    → any (λ t. Scope.to_string s == Scope.to_string t) scopes ≡ true
    → all P scopes ≡ true
    → P s ≡ true
unfolding any all
allowed_lem P s [] h k = cc
allowed_lem P s (t ∷ scopes) h k = elim (Bool-cases (Scope.to_string s == Scope.to_string t)) [
  | inl e ↦
      subst (λ t. P t ≡ true) (sym (to_string-injective s t ((text_eq_iff _ _).0 e)))
        (ground (arith, k))
  | inr e ↦ allowed_lem P s scopes (ground (arith, e, h)) (ground (arith, k))
]

module _ {fl : Floats} (sv : Services) (engine : Engine fl sv.chrono) (agent_id : Text)
    (x : TuskContext fl sv) where
  -- The hit shows an indexed record whose scope the agent may read.
  pub record IsAllowed (h : SearchHit fl) : Type 0 where
    pub row : FilePath × Record fl sv.chrono
    pub there : In row x.gate.rows
    pub readable : can agent_id read row.1.scope x.keyring ≡ true
    pub id : h.id ≡ row.1.id
    pub scope : h.scope ≡ Scope.to_string row.1.scope

  -- At most 50 hits, each of them allowed.
  abbrev pub AllAllowed : Reply fl sv → Type 0
  AllAllowed (hits found) = Every IsAllowed found × (length found ≤ 50)
  AllAllowed _ = ⊥

  abbrev Same : TuskContext fl sv → Type 0
  Same y = y ≡ x

  checked_scopes-same : (raws : List Text) → (checked_scopes sv engine agent_id raws x).1 ≡ x
  unfolding checked_scopes check
  checked_scopes-same [] = refl
  checked_scopes-same (raw ∷ raws) = elim (Result-cases (Scope.parse raw)) [
    | inr (e, q) ↦ rw q refl
    | inl (s, q) ↦ elim (Bool-cases (can agent_id read s x.keyring)) [
      | inr c ↦ rw (q, c) refl
      | inl c ↦ elim (Result-cases (checked_scopes sv engine agent_id raws x).0) [
        | inr (e, g) ↦ rw (q, c, g) (checked_scopes-same raws)
        | inl (l, g) ↦ rw (q, c, g) (checked_scopes-same raws)
      ]
    ]
  ]

  same : (raws : Option (List Text)) → (scopes_to_search sv engine agent_id raws x).1 ≡ x
  unfolding scopes_to_search
  same none = refl
  same (some raws) = checked_scopes-same raws

  module _ (laws : EngineLaws engine) where
    both :
        (P : List Scope → Type 0) (result : Result (List Scope) × TuskContext fl sv)
        → result.1 ≡ x
        → ((l : List Scope) → result.0 ≡ ok l → P l)
        → After (λ l y. (y ≡ x) × P l) Same result
    both P (ok l, y) e h = (e, h l refl)
    both P (err f, y) e h = e

    scopes-Triple :
        (a : AgentEntry) (raws : Option (List Text))
        → find_agent agent_id x.keyring.agents ≡ some a
        → a.revoked ≡ false
        → Triple Same
            (scopes_to_search sv engine agent_id raws)
            (λ l y. (y ≡ x) × (all (λ s. can agent_id read s x.keyring) l ≡ true))
            Same
    scopes-Triple a raws f r = record {
      at = λ y h.
          subst
            (λ y.
              After (λ l y. (y ≡ x) × (all (λ s. can agent_id read s x.keyring) l ≡ true)) Same
                (scopes_to_search sv engine agent_id raws y))
            (sym h)
            (both _ _ (same raws)
              (λ l e. scopes_to_search-can sv engine agent_id raws x a l f r e));
    }

    search-IsAllowed :
        (q : SearchQuery sv.chrono) (scopes : List Scope)
        → q.scopes ≡ some scopes
        → q.k ≤ 50
        → all (λ s. can agent_id read s x.keyring) scopes ≡ true
        → AllAllowed (hits (search engine q x.gate.rows))
    unfolding to_hit
    search-IsAllowed q scopes e l h =
        (Every-mono _ _ _ allowed (search-Shows engine laws q x.gate.rows), few)
      where
        allowed : (hit : SearchHit fl) → Shows engine q x.gate.rows hit → IsAllowed hit
        allowed hit f = record {
          row = f.row;
          there = f.there;
          readable = allowed_lem _ _ scopes (admits-scopes q f.row.1 scopes e f.admitted) h;
          id = ap (λ h. h.id) f.shown;
          scope = ap (λ h. h.scope) f.shown;
        }

        few : length (search engine q x.gate.rows) ≤ 50
        few =
            (let b : length (search engine q x.gate.rows) ≤ (if nat_eq q.k 0 then 10 else q.k) =
                length-search engine q x.gate.rows in
              grind arith)

    steady :
        {A : Type 0} {P : TuskContext fl sv → Type 0} (r : Result A)
        → ((y : TuskContext fl sv) → P y → Same y)
        → Triple P (lift r) (λ _. P) Same
    steady r w = Keeps-Triple (lift-Keeps r) w

    found :
        (y : TuskContext fl sv) (rows : Rows fl sv.chrono) (scopes : List Scope)
        (q : SearchQuery sv.chrono)
        → y ≡ x
        → rows ≡ y.gate.rows
        → q.scopes ≡ some scopes
        → q.k ≤ 50
        → all (λ s. can agent_id read s x.keyring) scopes ≡ true
        → AllAllowed (hits (search engine q rows))
    found y rows scopes q h i e l c =
        subst (λ rows. AllAllowed (hits (search engine q rows))) (sym (i ∙ ap (λ y. y.gate.rows) h))
          (search-IsAllowed q scopes e l c)

    memory_search-AllAllowed :
        (a : AgentEntry) (args : Value fl)
        → find_agent agent_id x.keyring.agents ≡ some a
        → a.revoked ≡ false
        → After
            (λ reply y. (y ≡ x) × AllAllowed reply)
            (λ y. y ≡ x)
            (memory_search sv engine agent_id args x)
    unfolding memory_search
    memory_search-AllAllowed a args f r =
        (>>=-Triple (steady (arg_str_list args (codes "scopes")) (λ y h. h)) λ raws.
            >>=-Triple (scopes-Triple a raws f r) λ scopes.
              >>=-Triple (steady (some_type (arg_str args (codes "type"))) (λ y h. h.0)) λ kind.
                >>=-Triple (steady (arg_str_list args (codes "tags")) (λ y h. h.0)) λ tags.
                  >>=-Triple (steady (time_of sv (arg_str args (codes "as_of"))) (λ y h. h.0))
                    λ as_of. >>=-Triple (gets-Triple (λ y. y.gate.rows)) λ rows.
                      pure-Triple _ (λ y h. (
                        h.0.0,
                        found y rows scopes (asked sv args scopes kind tags as_of) h.0.0 h.1 refl
                            (limit_lem (as_i64 (get_arg args (codes "k")))) h.0.1,
                      ))).at
          x refl

    skill_list-AllAllowed :
        (a : AgentEntry)
        → find_agent agent_id x.keyring.agents ≡ some a
        → a.revoked ≡ false
        → After
            (λ reply y. (y ≡ x) × AllAllowed reply)
            (λ y. y ≡ x)
            (skill_list sv engine agent_id x)
    unfolding skill_list
    skill_list-AllAllowed a f r =
        (>>=-Triple (scopes-Triple a none f r) λ scopes.
            >>=-Triple (gets-Triple (λ y. y.gate.rows)) λ rows. pure-Triple _ (λ y h. (
              h.0.0,
              found y rows scopes (skills_in sv scopes) h.0.0 h.1 refl (omega arith) h.0.1,
            ))).at
          x refl

    -- memory_search and skill_list find at most 50 records, each of them a record of the index whose scope
    -- the agent may read, and change nothing, whether they succeed or fail: for an agent that is not
    -- revoked, where the full text gives rows of the index.
    pub tools-AllAllowed :
        (a : AgentEntry) (args : Value fl)
        → find_agent agent_id x.keyring.agents ≡ some a
        → a.revoked ≡ false
        → After
            (λ reply y. (y ≡ x) × AllAllowed reply)
            (λ y. y ≡ x)
            (memory_search sv engine agent_id args x)
          × After
              (λ reply y. (y ≡ x) × AllAllowed reply)
              (λ y. y ≡ x)
              (skill_list sv engine agent_id x)
    tools-AllAllowed a args f r = (memory_search-AllAllowed a args f r, skill_list-AllAllowed a f r)
