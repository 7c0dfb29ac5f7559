-- ===== src/Keyring/Agents.antt =====
-- keyring.rs: lemmas on the list of agents.
use tuskd.Prelude.{
  false, Option, none, some, List, [], ◌∷◌, ◌++◌, map, ◌≡◌, refl, ◌==◌, if◌then◌else◌, arith, any,
}
use tuskd.Text.{Text, Text_eq, text_eq_iff}
use tuskd.Keyring.{AgentEntry, by_id, find_agent, update_agent}

abbrev pub ids : List AgentEntry → List Text
ids = map (λ a. a.id)

-- A change of an entry that leaves its id.
abbrev pub KeepsId : (AgentEntry → AgentEntry) → Type 0
KeepsId f = (a : AgentEntry) → (f a).id ≡ a.id

abbrev pub mapped : (AgentEntry → AgentEntry) → Option AgentEntry → Option AgentEntry
mapped f none = none
mapped f (some a) = some (f a)

pub ids-update_agent :
    (id : Text) (f : AgentEntry → AgentEntry) (l : List AgentEntry)
    → KeepsId f
    → ids (update_agent id f l) ≡ ids l
unfolding update_agent
ids-update_agent id f [] k = refl
ids-update_agent id f (a ∷ l) k = ground (arith, k a, ids-update_agent id f l k)

pub find_agent-update_agent :
    (id j : Text) (f : AgentEntry → AgentEntry) (l : List AgentEntry)
    → KeepsId f
    → find_agent j (update_agent id f l)
      ≡ (if id == j then mapped f (find_agent j l) else find_agent j l)
unfolding find_agent update_agent
find_agent-update_agent id j f [] k = ground arith
find_agent-update_agent id j f (a ∷ l) k = ground (
  arith,
  k a,
  text_eq_iff a.id id,
  text_eq_iff a.id j,
  text_eq_iff id j,
  find_agent-update_agent id j f l k,
)

pub find_agent-id :
    (id : Text) (l : List AgentEntry) {a : AgentEntry} → find_agent id l ≡ some a → a.id ≡ id
unfolding find_agent
find_agent-id id [] h = cc
find_agent-id id (x ∷ l) {a} h = ground (arith, text_eq_iff x.id id, find_agent-id id l {a = a})

pub find_agent-append :
    (id : Text) (l : List AgentEntry) (e : AgentEntry)
    → any (by_id e.id) l ≡ false
    → find_agent id (l ++ e ∷ []) ≡ (if e.id == id then some e else find_agent id l)
unfolding find_agent any
find_agent-append id [] e h = refl
find_agent-append id (x ∷ l) e h = ground (
  arith,
  text_eq_iff x.id id,
  text_eq_iff e.id id,
  text_eq_iff x.id e.id,
  find_agent-append id l e,
)
