-- ===== src/Keyring/Access.antt =====
-- keyring.rs: what `can` grants, and what the operations change of it.
use tuskd.Prelude.{
  Bool, true, false, Option, none, some, List, [], ◌∷◌, ◌++◌, ◌≡◌, refl, ◌==◌, ◌||◌, ◌&&◌,
  if◌then◌else◌, arith, any, ◌≢◌, ◌⊎◌, ◌↔◌, inl, inr, any-append, contains, Option-cases, not,
}
use tuskd.Text.{Text, Text_eq, text_eq_iff}
use tuskd.Errors.{ok}
use tuskd.Scope.{Scope, Scope_eq, scope_eq_iff, own}
use tuskd.Keyring.Pattern.{Verb, read, write, promote, for_verb, pattern_matches}
use tuskd.Keyring.{AgentEntry, Keyring, find_agent, update_agent, can, entry_can, grant, push_grant}
use tuskd.Keyring.Agents.{mapped, find_agent-update_agent, KeepsId}
use tuskd.Keyring.Effects.{grant-Effect}

-- Why access is given: an entry that is not revoked, and the own scope or a matching grant.
abbrev pub Entitled : AgentEntry → Verb → Scope → Type 0
Entitled a verb scope =
    (a.revoked ≡ false)
    × (((verb ≢ promote) × (scope ≡ own a.id))
        ⊎ (any (λ p. pattern_matches p scope) (for_verb a.grants verb) ≡ true))

entitled :
    (a : AgentEntry) (verb : Verb) (scope : Scope)
    → entry_can (some a) verb scope ≡ true
    → Entitled a verb scope
unfolding entry_can
entitled a promote scope h = ground arith
entitled a read scope h = ground (arith, scope_eq_iff scope (own a.id))
entitled a write scope h = ground (arith, scope_eq_iff scope (own a.id))

entitles :
    (a : AgentEntry) (verb : Verb) (scope : Scope)
    → Entitled a verb scope
    → entry_can (some a) verb scope ≡ true
unfolding entry_can
entitles a promote scope h = ground arith
entitles a read scope h = ground (arith, scope_eq_iff scope (own a.id))
entitles a write scope h = ground (arith, scope_eq_iff scope (own a.id))

gives :
    (id : Text) (verb : Verb) (scope : Scope) (k : Keyring)
    → can id verb scope k ≡ true
    → (a : AgentEntry) × (find_agent id k.agents ≡ some a) × Entitled a verb scope
unfolding can entry_can
gives id verb scope k h = elim (Option-cases (find_agent id k.agents)) [
  | inl e ↦ absurd (cc (rw e at h))
  | inr (a, e) ↦ (a, e, entitled a verb scope (rw e at h))
]

given :
    (id : Text) (verb : Verb) (scope : Scope) (k : Keyring) (a : AgentEntry)
    → find_agent id k.agents ≡ some a
    → Entitled a verb scope
    → can id verb scope k ≡ true
unfolding can
given id verb scope k a e h = rw e (entitles a verb scope h)

-- Access is given exactly to an agent that is registered, not revoked, and entitled by its own scope
-- (read and write only) or by a grant for the verb that matches.
pub can_iff :
    (id : Text) (verb : Verb) (scope : Scope) (k : Keyring)
    → (can id verb scope k ≡ true)
      ↔ ((a : AgentEntry) × (find_agent id k.agents ≡ some a) × Entitled a verb scope)
can_iff id verb scope k = (gives id verb scope k, λ p. given id verb scope k p.0 p.1 p.2)

pub same_verb : Verb → Verb → Bool
same_verb read read = true
same_verb write write = true
same_verb promote promote = true
same_verb _ _ = false

-- What one more pattern for `verb` adds to the access of an entry for verb `v`.
pub adds : Verb → Text → Verb → Scope → AgentEntry → Bool
adds verb pattern v scope a = not a.revoked && same_verb verb v && pattern_matches pattern scope

any_contained :
    (pattern : Text) (scope : Scope) (l : List Text)
    → contains pattern l ≡ true
    → pattern_matches pattern scope ≡ true
    → any (λ p. pattern_matches p scope) l ≡ true
unfolding contains any
any_contained pattern scope [] h m = cc
any_contained pattern scope (q ∷ l) h m =
    ground (arith, text_eq_iff pattern q, any_contained pattern scope l)

abbrev any_match : Scope → List Text → Bool
any_match scope = any (λ p. pattern_matches p scope)

any_match-push :
    (pattern : Text) (scope : Scope) (l : List Text)
    → (if contains pattern l then any_match scope l else any_match scope (l ++ pattern ∷ []))
      ≡ (any_match scope l || pattern_matches pattern scope)
unfolding any
any_match-push pattern scope l = ground (
  arith,
  any_contained pattern scope l,
  any-append (λ p. pattern_matches p scope) l (pattern ∷ []),
)

grants-push_grant :
    (verb v : Verb) (pattern : Text) (scope : Scope) (a : AgentEntry)
    → any_match scope (for_verb (push_grant verb pattern a).grants v)
      ≡ (any_match scope (for_verb a.grants v) || same_verb verb v && pattern_matches pattern scope)
unfolding push_grant same_verb
grants-push_grant read v pattern scope a =
    ground (arith, any_match-push pattern scope a.grants.read)
grants-push_grant write v pattern scope a =
    ground (arith, any_match-push pattern scope a.grants.write)
grants-push_grant promote v pattern scope a =
    ground (arith, any_match-push pattern scope a.grants.promote)

entry_can-push_grant :
    (verb v : Verb) (pattern : Text) (scope : Scope) (a : AgentEntry)
    → entry_can (some (push_grant verb pattern a)) v scope
      ≡ (entry_can (some a) v scope || adds verb pattern v scope a)
unfolding entry_can adds push_grant
entry_can-push_grant verb v pattern scope a =
    ground (arith, grants-push_grant verb v pattern scope a)

pub adds_to : Verb → Text → Verb → Scope → Option AgentEntry → Bool
adds_to verb pattern v scope none = false
adds_to verb pattern v scope (some a) = adds verb pattern v scope a

push_grant-KeepsId : (verb : Verb) (pattern : Text) → KeepsId (push_grant verb pattern)
unfolding push_grant
push_grant-KeepsId verb pattern a = ground arith

can-mapped :
    (verb v : Verb) (pattern : Text) (scope : Scope) (o : Option AgentEntry)
    → entry_can (mapped (push_grant verb pattern) o) v scope
      ≡ (entry_can o v scope || adds_to verb pattern v scope o)
unfolding adds_to entry_can
can-mapped verb v pattern scope none = refl
can-mapped verb v pattern scope (some a) = entry_can-push_grant verb v pattern scope a

can-update :
    (id j : Text) (verb v : Verb) (pattern : Text) (scope : Scope) (l : List AgentEntry)
    → entry_can (find_agent j (update_agent id (push_grant verb pattern) l)) v scope ≡ (
        entry_can (find_agent j l) v scope
        || (id == j && adds_to verb pattern v scope (find_agent id l)))
can-update id j verb v pattern scope l =
    rw (find_agent-update_agent id j (push_grant verb pattern) l (push_grant-KeepsId verb pattern))
      (ground (arith, text_eq_iff id j, can-mapped verb v pattern scope (find_agent j l)))

-- A grant that succeeds adds, for its agent and verb, the scopes that its pattern matches, unless the
-- agent is revoked; all other access, of this agent and of the others, stays as it was.
pub can-grant :
    (written : Bool) (id j : Text) (verb v : Verb) (pattern : Text) (scope : Scope) (k : Keyring)
    → (grant written id verb pattern k).0 ≡ ok tt
    → can j v scope (grant written id verb pattern k).1
      ≡ (can j v scope k || (id == j && adds_to verb pattern v scope (find_agent id k.agents)))
unfolding can
can-grant written id j verb v pattern scope k h =
    rw (((grant-Effect written id verb pattern k).stored tt h).0)
      (can-update id j verb v pattern scope k.agents)
