-- ===== src/Tests/Wraps.antt =====
-- wrap.rs, provider.rs and spaces.rs at fixed inputs.
use tuskd.Prelude.{
  ℕ, zero, suc, ◌+◌, ◌≤◌, ◌++◌, drop, some, none, [], ◌∷◌, ◌≡◌, refl, ap, subst, length,
  length-append, true, arith,
}
use tuskd.Text.{Text, codes}
use tuskd.SyncErrors.{ok}
use tuskd.Cloud.Crypto.Opened.{CipherLaws}
use tuskd.Cloud.Provider.{local_provider}
use tuskd.Cloud.Spaces.{
  Http, Response, BlobOp, spaces_provider, spaces_get, spaces_delete, spaces_list,
}
use tuskd.Cloud.Spaces.Names.{Refuses, providers-Refuse}
use tuskd.Cloud.Wrap.{Curve, DeviceWrap, wrap_rmk_for_device, unwrap_rmk_for_device}
use tuskd.Cloud.Wrap.Roundtrip.{CurveLaws, unwrap-wrap_rmk_for_device}
use tuskd.Tests.Clouds.{Shelf, replicate, toy_ciphers}

pub length-replicate : (n : ℕ) → length (replicate n) ≡ n
length-replicate zero = refl
length-replicate (suc n) = ap suc (length-replicate n)

toy-CipherLaws : CipherLaws toy_ciphers
toy-CipherLaws = record {
  opens = λ key nonce aad message sealed h.
      (let e : replicate 16 ++ message ≡ sealed = cc in
        subst (λ s. some (drop 16 s) ≡ some message) e refl);
  tagged = λ key nonce aad message sealed h.
      (let e : replicate 16 ++ message ≡ sealed = cc in
        let l : length (replicate 16 ++ message) ≡ 16 + length message =
          length-append (replicate 16) message in
        subst (λ s. length message + 16 ≤ length s) e (omega arith));
  filled = λ n w. length-replicate n;
  hex_round = λ b. refl;
}

-- A key is its first byte, and the shared secret the sum of both.
abbrev pub first : Text → ℕ
first [] = 0
first (c ∷ s) = c

abbrev pub toy_curve : Curve Shelf
toy_curve = record {
  SigningKey = Text;
  from_pkcs8_pem = λ pem. some pem;
  montgomery_from_pem = λ pem. some (first pem ∷ replicate 31);
  to_scalar_bytes = λ k. k;
  to_montgomery = λ k. first k ∷ replicate 31;
  random_secret = λ w. (9 ∷ [], w);
  public_key = λ a. first a ∷ replicate 31;
  diffie_hellman = λ a b. (first a + first b) ∷ [];
  was_contributory = λ s. true;
}

pub toy-CurveLaws : CurveLaws toy_curve
toy-CurveLaws = record {
  shared =
      λ a b. (let e : first a + first b ≡ first b + first a = omega arith in ap (λ n. n ∷ []) e);
  montgomery = λ k. refl;
  length_public = λ a. refl;
}

abbrev pub shelf : Shelf
shelf = record { blobs = []; log = [] }

abbrev wrapped : DeviceWrap
wrapped = record {
  v = 1;
  ephemeral_pub = 9 ∷ replicate 31;
  sealed = replicate 24 ++ replicate 16 ++ replicate 32;
}

wraps :
    (wrap_rmk_for_device toy_ciphers toy_curve (replicate 32) (codes "r") (codes "A") shelf).0
    ≡ ok wrapped
unfolding wrap_rmk_for_device
wraps = refl

unwrap-wrap_rmk_for_device_example :
    unwrap_rmk_for_device toy_ciphers toy_curve wrapped (codes "r") (codes "A") ≡ ok (replicate 32)
unwrap-wrap_rmk_for_device_example =
    unwrap-wrap_rmk_for_device toy_ciphers toy_curve toy-CipherLaws toy-CurveLaws (replicate 32)
      (codes "r") (codes "A") (codes "A") (codes "A") shelf wrapped refl refl refl wraps

-- A server that has one blob, and lists two names.
abbrev answer : BlobOp → Text → Response
answer BlobOp.get url = record { status = 200; body = some (codes "x") }
answer BlobOp.put url = record { status = 507; body = none }
answer BlobOp.delete url = record { status = 404; body = none }
answer BlobOp.list url = record { status = 200; body = some [] }

abbrev server : Http ℕ
server = record {
  url_for = λ op name w. (ok name, suc w);
  send = λ op url body w. (some (answer op url), suc w);
  names_from_slice = λ t. some (codes "b" ∷ codes "a" ∷ []);
}

got : spaces_get server (codes "a") 0 ≡ (ok (codes "x"), 2)
unfolding spaces_get
got = refl

deleted : spaces_delete server (codes "a") 0 ≡ (ok tt, 2)
unfolding spaces_delete
deleted = refl

listed : spaces_list server 0 ≡ (ok (codes "a" ∷ codes "b" ∷ []), 2)
unfolding spaces_list
listed = refl

providers-Refuse_example :
    Refuses local_provider (codes "../x") × Refuses (spaces_provider server) (codes "../x")
providers-Refuse_example = providers-Refuse server (codes "../x") refl
