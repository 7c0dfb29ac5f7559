-- ===== src/RepoKey/Local.antt =====
-- sync_cloud.rs: loading the key that was stored.
use tuskd.Prelude.{ℕ, true, not, some, List, ◌≡◌, refl, ap, ◌∙◌, length, arith}
use tuskd.Text.{trim, is_whitespace, is_ascii_digit}
use tuskd.Text.Trim.{no_space-IsTrimmed}
use tuskd.Text.Number.{
  ℤ, pos, negsuc, IsI64, parse_i64, show_i64, show_i64-chars, parse_i64-show_i64,
}
use tuskd.Keyring.{Crypto}
use tuskd.Cloud.SecretKey.{to_otsk, from_otsk}
use tuskd.Cloud.SecretKey.Roundtrip.{HexLaws, otsk_trimmed, from-to_otsk}
use package.tuskd.RepoKey.{is_i32, if_i32, gen_of, or_one, with_gen, local_of}

i32-IsI64 : (g : ℤ) → is_i32 g ≡ true → IsI64 g
i32-IsI64 (pos n) h = grind arith
i32-IsI64 (negsuc n) h = grind arith

digit_not_space : (c : ℕ) → is_ascii_digit c ≡ true → not (is_whitespace c) ≡ true
unfolding is_ascii_digit is_whitespace
digit_not_space c h = ground arith

gen_of-show : (g : ℤ) → is_i32 g ≡ true → gen_of (some (show_i64 g)) ≡ g
unfolding gen_of is_whitespace
gen_of-show g h =
    let t : trim (show_i64 g) ≡ show_i64 g =
      no_space-IsTrimmed (show_i64 g)
        (show_i64-chars (λ c. not (is_whitespace c)) g digit_not_space refl) in
    let p : parse_i64 (show_i64 g) ≡ some g = parse_i64-show_i64 g (i32-IsI64 g h) in
    ap (λ t. or_one (if_i32 (parse_i64 t))) t ∙ ap (λ o. or_one (if_i32 o)) p ∙ rw h refl

-- The two files give the key of 32 bytes and its generation back.
pub load-store :
    (c : Crypto) (laws : HexLaws c) (rmk : List ℕ) (g : ℤ)
    → length rmk ≡ 32
    → is_i32 g ≡ true
    → local_of c (some (to_otsk c rmk)) (some (show_i64 g)) ≡ some (rmk, g)
load-store c laws rmk g l h =
    ap (λ t. with_gen (some (show_i64 g)) (from_otsk c t)) (otsk_trimmed c laws rmk)
    ∙ ap (with_gen (some (show_i64 g))) (from-to_otsk c laws rmk l)
    ∙ ap (λ g. some (rmk, g)) (gen_of-show g h)
