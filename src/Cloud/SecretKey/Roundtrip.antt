-- ===== src/Cloud/SecretKey/Roundtrip.antt =====
-- crypto.rs: a Repo Secret Key in its compact form is read back.
use tuskd.Prelude.{
  ℕ, ◌+◌, true, not, some, List, ◌++◌, ◌≡◌, refl, subst, sym, ap, ap₂, ◌∙◌, length, take, drop, all,
  all-append, take-append, drop-append, length-append, ==-refl, ℕ_eq,
}
use tuskd.Text.{Text_eq, trim, strip_prefix, is_whitespace}
use tuskd.Text.Affix.{strip_prefix-append}
use tuskd.Text.Trim.{no_space, no_space-IsTrimmed}
use tuskd.Keyring.{Crypto}
use tuskd.SyncErrors.{ok, ok_or, ◌>>=◌, secret_key, bad_hex}
use package.tuskd.Cloud.SecretKey.{otsk_prefix, to_otsk, key_of_raw, key_of_body, from_otsk}

-- hex writes byte by byte, without spaces, and is read back; a digest has at least four bytes.
pub record HexLaws (c : Crypto) : Type 0 where
  pub hex_round : (b : List ℕ) → c.hex_decode (c.hex_encode b) ≡ some b
  pub hex_append : (a b : List ℕ) → c.hex_encode (a ++ b) ≡ c.hex_encode a ++ c.hex_encode b
  pub hex_no_space : (b : List ℕ) → no_space (c.hex_encode b) ≡ true
  pub four_bytes : (b : List ℕ) → length (take 4 (c.sha256 b)) ≡ 4

module _ (c : Crypto) (laws : HexLaws c) where
  pub otsk_trimmed : (rmk : List ℕ) → trim (to_otsk c rmk) ≡ to_otsk c rmk
  unfolding to_otsk all is_whitespace
  otsk_trimmed rmk = no_space-IsTrimmed (to_otsk c rmk) spaceless
    where
      spaceless : no_space (to_otsk c rmk) ≡ true
      spaceless =
          rw
            (
              all-append (λ x. not (is_whitespace x)) (c.hex_encode rmk)
                  (c.hex_encode (take 4 (c.sha256 rmk))),
              laws.hex_no_space rmk,
              laws.hex_no_space (take 4 (c.sha256 rmk)),
            )
            refl

  key_of_raw-checked :
      (rmk : List ℕ) → length rmk ≡ 32 → key_of_raw c (rmk ++ take 4 (c.sha256 rmk)) ≡ ok rmk
  key_of_raw-checked rmk l =
      let sum = take 4 (c.sha256 rmk) in
      let n : length (rmk ++ sum) ≡ 36 =
        length-append rmk sum ∙ ap₂ (λ a b. a + b) l (laws.four_bytes rmk) in
      let p : take 32 (rmk ++ sum) ≡ rmk =
        subst (λ k. take k (rmk ++ sum) ≡ rmk) l (take-append rmk sum) in
      let q : drop 32 (rmk ++ sum) ≡ sum =
        subst (λ k. drop k (rmk ++ sum) ≡ sum) l (drop-append rmk sum) in
      rw (n, p, q, ==-refl sum) refl

  -- from_otsk reads what to_otsk writes, for a master key of 32 bytes.
  pub from-to_otsk : (rmk : List ℕ) → length rmk ≡ 32 → from_otsk c (to_otsk c rmk) ≡ ok rmk
  unfolding from_otsk to_otsk trim strip_prefix
  from-to_otsk rmk l =
      let sum = take 4 (c.sha256 rmk) in
      ap (λ t. key_of_body c (strip_prefix otsk_prefix t)) (otsk_trimmed rmk)
      ∙ ap (key_of_body c) (strip_prefix-append otsk_prefix (c.hex_encode rmk ++ c.hex_encode sum))
      ∙ ap (λ t. key_of_body c (some t)) (sym (laws.hex_append rmk sum))
      ∙ ap (λ o. ok_or o (secret_key bad_hex) >>= key_of_raw c) (laws.hex_round (rmk ++ sum))
      ∙ key_of_raw-checked rmk l
