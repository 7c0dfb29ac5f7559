-- ===== src/Tests/Keys.antt =====
-- crypto.rs, the Repo Secret Key at fixed inputs: a toy hex that counts.
use tuskd.Prelude.{
  ℕ, zero, suc, ◌+◌, true, Option, none, some, List, [], ◌∷◌, ◌++◌, ◌≡◌, refl, ap, sym, ◌∙◌, length,
  ◌==◌, ℕ_eq, if◌then◌else◌, arith, all,
}
use tuskd.Text.{Text, is_whitespace}
use tuskd.Text.Trim.{no_space}
use tuskd.Keyring.{Crypto}
use tuskd.SyncErrors.{ok}
use tuskd.Cloud.SecretKey.{to_otsk, from_otsk}
use tuskd.Cloud.SecretKey.Roundtrip.{HexLaws, from-to_otsk}
use tuskd.Tests.Clouds.{replicate}

abbrev pub tally : ℕ → Text → Text
tally zero s = s
tally (suc n) s = b'a' ∷ tally n s

abbrev pub write : List ℕ → Text
write [] = []
write (n ∷ b) = tally n (b'b' ∷ write b)

abbrev pub push : ℕ → Option (List ℕ) → Option (List ℕ)
push n none = none
push n (some b) = some (n ∷ b)

abbrev pub read : ℕ → Text → Option (List ℕ)
read n [] = some []
read n (c ∷ s) =
    let more = read (suc n) s in let rest = read 0 s in if c == b'a' then more else push n rest

read-tally : (k n : ℕ) (s : Text) → read k (tally n (b'b' ∷ s)) ≡ push (k + n) (read 0 s)
read-tally k zero s = (let e : k ≡ k + 0 = omega arith in ap (λ n. push n (read 0 s)) e)
read-tally k (suc n) s =
    let e : suc k + n ≡ k + suc n = omega arith in
    read-tally (suc k) n s ∙ ap (λ n. push n (read 0 s)) e

pub read-write : (b : List ℕ) → read 0 (write b) ≡ some b
read-write [] = refl
read-write (n ∷ b) =
    read-tally 0 n (write b)
    ∙ ap (push (0 + n)) (read-write b)
    ∙ (let e : 0 + n ≡ n = omega arith in ap (λ n. some (n ∷ b)) e)

tally-append : (n : ℕ) (s t : Text) → tally n s ++ t ≡ tally n (s ++ t)
tally-append zero s t = refl
tally-append (suc n) s t = ap (λ r. b'a' ∷ r) (tally-append n s t)

write-append : (a b : List ℕ) → write (a ++ b) ≡ write a ++ write b
write-append [] b = refl
write-append (n ∷ a) b =
    ap (λ r. tally n (b'b' ∷ r)) (write-append a b)
    ∙ sym (tally-append n (b'b' ∷ write a) (write b))

tally-no_space : (n : ℕ) (s : Text) → no_space s ≡ true → no_space (tally n s) ≡ true
unfolding all is_whitespace
tally-no_space zero s h = h
tally-no_space (suc n) s h = tally-no_space n s h

write-no_space : (b : List ℕ) → no_space (write b) ≡ true
unfolding all is_whitespace
write-no_space [] = refl
write-no_space (n ∷ b) = tally-no_space n (b'b' ∷ write b) (write-no_space b)

abbrev pub toy : Crypto
toy = record {
  sha256 = λ t. length t ∷ 2 ∷ 3 ∷ 4 ∷ 5 ∷ [];
  hex_encode = write;
  hex_decode = read 0;
  ct_eq = λ a b. true;
}

pub toy-HexLaws : HexLaws toy
toy-HexLaws = record {
  hex_round = read-write;
  hex_append = write-append;
  hex_no_space = write-no_space;
  four_bytes = λ b. refl;
}

from-to_otsk_example : from_otsk toy (to_otsk toy (replicate 32)) ≡ ok (replicate 32)
from-to_otsk_example = from-to_otsk toy toy-HexLaws (replicate 32) refl
