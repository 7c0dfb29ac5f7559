-- ===== src/Cloud/Spaces/Names.antt =====
-- provider.rs and spaces.rs: names that are refused before they touch the storage.
use tuskd.Prelude.{
  Bool, true, false, [], ◌∷◌, ◌≡◌, refl, ◌==◌, ℕ_eq, all, any, nat_eq_iff, sym, subst, ◌||◌, arith,
  Bool-cases, inl, inr,
}
use tuskd.Text.{Text, is_ascii_digit}
use tuskd.SyncErrors.{err, invalid_name}
use package.tuskd.Cloud.Provider.{
  StorageProvider, is_name_char, is_valid_name, validate_name, local_provider, local_put, local_get,
  local_delete, starts_with_dot,
}
use package.tuskd.Cloud.Spaces.{Http, spaces_provider, spaces_put, spaces_get, spaces_delete}

-- A name that leads out of the directory of the blobs, or to a hidden file there.
abbrev pub leads_out : Text → Bool
leads_out name = starts_with_dot name || any (λ c. c == b'/') name

-- Every operation on such a name fails, and the storage stays as it is.
pub record Refuses {World : Type 0} (p : StorageProvider World) (name : Text) : Type 0 where
  pub put : (bytes : Text) (w : World) → p.put name bytes w ≡ (err (invalid_name name), w)
  pub get : (w : World) → p.get name w ≡ (err (invalid_name name), w)
  pub delete : (w : World) → p.delete name w ≡ (err (invalid_name name), w)

slash_lem : (s : Text) → any (λ c. c == b'/') s ≡ true → all is_name_char s ≡ false
unfolding any all is_name_char is_ascii_digit
slash_lem [] h = cc
slash_lem (c ∷ s) h = elim (Bool-cases (c == b'/')) [
  | inl e ↦
      (let k : c ≡ b'/' = (nat_eq_iff c b'/').0 e in
        subst (λ c. all is_name_char (c ∷ s) ≡ false) (sym k) refl)
  | inr e ↦ rw (slash_lem s (ground (arith, e, h))) (ground arith)
]

leads_out_lem : (name : Text) → leads_out name ≡ true → is_valid_name name ≡ false
unfolding is_valid_name
leads_out_lem name h = elim (Bool-cases (starts_with_dot name)) [
  | inl e ↦ rw e (ground arith)
  | inr e ↦ rw (slash_lem name (ground (arith, e, h))) (ground arith)
]

-- A name that starts with a dot or has a slash is refused before it touches the storage: put, get and
-- delete fail and change nothing, in a directory as behind presigned URLs.
pub providers-Refuse :
    {World : Type 0} (h : Http World) (name : Text)
    → leads_out name ≡ true
    → Refuses local_provider name × Refuses (spaces_provider h) name
unfolding local_put local_get local_delete spaces_put spaces_get spaces_delete validate_name
providers-Refuse h name l =
    let v = leads_out_lem name l in
    (
      record { put = λ bytes w. rw v refl; get = λ w. rw v refl; delete = λ w. rw v refl },
      record { put = λ bytes w. rw v refl; get = λ w. rw v refl; delete = λ w. rw v refl },
    )
