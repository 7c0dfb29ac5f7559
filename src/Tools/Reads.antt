-- ===== src/Tools/Reads.antt =====
-- tools.rs: what `memory_get` returns.
use tuskd.Prelude.{true, ◌≡◌, ◌⊎◌, ◌≢◌, refl, sym, ◌∙◌, subst, Bool-cases, inl, inr}
use tuskd.Text.{Text, codes}
use tuskd.Errors.{Result, CoreError, ok, err, denied, lacks_verb}
use tuskd.Floats.{Floats}
use tuskd.Keyring.{can}
use tuskd.Keyring.Pattern.{read}
use tuskd.Record.Fields.{Record}
use tuskd.Journal.{Services}
use tuskd.Vault.Paths.{FilePath}
use tuskd.Vault.Store
use tuskd.Gate.Commit.{Config}
use package.tuskd.Tools.Args.{Value, req_str}
use package.tuskd.Tools.Handlers.{TuskContext, UnitInterval, Reply, got, check, memory_get}

pub Result-cases :
    {A : Type 0} (r : Result A) → ((a : A) × (r ≡ ok a)) ⊎ ((e : CoreError) × (r ≡ err e))
Result-cases (ok a) = inl (a, refl)
Result-cases (err e) = inr (e, refl)

module _ {fl : Floats} (sv : Services) (cf : Config fl sv) (ui : UnitInterval fl)
    (agent_id : Text) where
  -- The record `r` is the one that the vault has under the id, and the agent may read its scope.
  pub record IsReadable (args : Value fl) (x : TuskContext fl sv) (r : Record fl sv.chrono)
      : Type 0 where
    pub id : Text
    pub p : FilePath
    pub asked : req_str args (codes "id") ≡ ok id
    pub found : (Store.get sv fl id x.gate.vault).0 ≡ ok (p, r)
    pub allowed : can agent_id read r.scope x.keyring ≡ true

  -- A record that memory_get returns is the one that the vault has under the id asked for, and the agent
  -- passes the check for the verb read on its scope.
  pub memory_get-IsReadable :
      (args : Value fl) (x : TuskContext fl sv) (r : Record fl sv.chrono)
      → (memory_get sv cf ui agent_id args x).0 ≡ ok (got r)
      → IsReadable args x r
  unfolding memory_get check
  memory_get-IsReadable args x r h = elim (Result-cases (req_str args (codes "id"))) [
    | inr (e, q) ↦ absurd (other_result (err e) (rw q refl) (λ h. cc))
    | inl (id, q) ↦ elim (Result-cases (Store.get sv fl id x.gate.vault).0) [
      | inr (e, g) ↦ absurd (other_result (err e) (rw (q, g) refl) (λ h. cc))
      | inl ((p, s), g) ↦ elim (Bool-cases (can agent_id read s.scope x.keyring)) [
        | inr c ↦ absurd (other_result (err (denied lacks_verb)) (rw (q, g, c) refl) (λ h. cc))
        | inl c ↦
            (let e : s ≡ r = same s (rw (q, g, c) refl) in
              record {
                id = id;
                p = p;
                asked = q;
                found = subst (λ r. (Store.get sv fl id x.gate.vault).0 ≡ ok (p, r)) e g;
                allowed = subst (λ r. can agent_id read r.scope x.keyring ≡ true) e c;
              })
      ]
    ]
  ]
    where
      other_result :
          (y : Result (Reply fl sv))
          → (memory_get sv cf ui agent_id args x).0 ≡ y
          → (y ≢ ok (got r))
          → ⊥
      other_result y e n = n (sym e ∙ h)

      same :
          (s : Record fl sv.chrono) → (memory_get sv cf ui agent_id args x).0 ≡ ok (got s) → s ≡ r
      same s e = (let k : ok (got s) ≡ ok (got r) = sym e ∙ h in cc)
