-- ===== src/Md/Auth/Base64.antt =====
-- coinbase_auth.cpp: what is encoded is decoded again, and what a signature is.
use trading_bot_v.Prelude.{
  ℕ, ◌+◌, ◌-◌, ◌*◌, ◌/◌, ◌%◌, ◌^◌, ◌<◌, ◌≡◌, ◌∙◌, refl, ap, true, false, Option, none, some, List,
  [], ◌∷◌, ◌++◌, take, take-append, replicate, length, length-append, length-replicate, leb, le→leb,
  if-true, if-false, arith, pos, ltb, sub_ℕ,
}
use native.Mathlib.Nat.{mod-eq_of_lt}
use trading_bot_v.Util.SpscQueue.{sub_word}
use trading_bot_v.Md.Auth.{
  Auth, Crypto, Signed, base64_decode, base64_encode, buffer, has_credentials, is_empty, padding,
  resize, sign, sign_with, terminated, to_int, value,
}

-- the '=' that follow the code of as many bytes
abbrev pub pad_of : ℕ → ℕ
pad_of n = (3 - n % 3) % 3

-- What OpenSSL documents: the code of n bytes has four characters for three bytes or less of them,
-- padded with '=', and its decoding gives the bytes with a zero for each '='. An HMAC with SHA-256 has 32 bytes.
pub record IsBase64 (crypto : Crypto) (code : List ℕ → List ℕ) : Type 0 where
  pub encoded :
      (bytes : List ℕ) → crypto.encode_block bytes (pos (length bytes)) ≡ some (code bytes)
  pub size : (bytes : List ℕ) → length (code bytes) ≡ (length bytes + 2) / 3 * 4
  pub padded : (bytes : List ℕ) → padding (code bytes) ≡ pad_of (length bytes)
  pub mac_size : (key bytes : List ℕ) → length (crypto.hmac key (pos (length key)) bytes) ≡ 32
  pub decoded :
      (bytes : List ℕ)
      → crypto.decode_block (code bytes) (pos (length (code bytes)))
        ≡ some (bytes ++ replicate (pad_of (length bytes)) 0)

take_all : (xs : List ℕ) → take (length xs) xs ≡ xs
take_all [] = refl
take_all (x ∷ xs) = ap (λ ys. x ∷ ys) (take_all xs)

append_nil : (xs : List ℕ) → xs ++ [] ≡ xs
append_nil [] = refl
append_nil (x ∷ xs) = ap (λ ys. x ∷ ys) (append_nil xs)

append_assoc : (xs ys zs : List ℕ) → (xs ++ ys) ++ zs ≡ xs ++ (ys ++ zs)
append_assoc [] ys zs = refl
append_assoc (x ∷ xs) ys zs = ap (λ ws. x ∷ ws) (append_assoc xs ys zs)

-- Cutting a buffer back to what is written at its beginning.
resize-prefix :
    (n : ℕ) (xs ys : List ℕ) → n ≡ length xs → n < 2 ^ 63 → resize n (xs ++ ys) ≡ value xs
resize-prefix n xs ys e small =
    if-true (leb n (2 ^ 63 - 1)) _ _ (le→leb n (2 ^ 63 - 1) (omega (arith, small)))
    ∙ ap value (
        ap (λ k. take k (xs ++ ys) ++ replicate (k - length (xs ++ ys)) 0) e
        ∙ ap (λ zs. zs ++ replicate (length xs - length (xs ++ ys)) 0)
            (take-append (length xs) xs ys (omega arith) ∙ take_all xs)
        ∙ ap (λ k. xs ++ replicate k 0) {x = length xs - length (xs ++ ys)} {y = 0}
            (omega (arith, length-append xs ys))
        ∙ append_nil xs)

lt→ltb : (a b : ℕ) → a < b → ltb a b ≡ true
lt→ltb a b h = ground arith

to_int-small : (n : ℕ) → n < 2 ^ 31 → to_int n ≡ pos n
to_int-small n h =
    if-true (ltb (n % 2 ^ 32) (2 ^ 31)) (pos (n % 2 ^ 32)) (sub_ℕ (n % 2 ^ 32) (2 ^ 32)) (
      lt→ltb (n % 2 ^ 32) (2 ^ 31) (omega (arith, mod-eq_of_lt {n = n} {m = 2 ^ 32} (omega arith))))
    ∙ ap pos (mod-eq_of_lt {n = n} {m = 2 ^ 32} (omega arith))

module _ (crypto : Crypto) (code : List ℕ → List ℕ) (laws : IsBase64 crypto code) where
  encode_lem :
      (bytes : List ℕ) → length bytes < 2 ^ 30 → base64_encode crypto bytes ≡ value (code bytes)
  unfolding base64_encode
  encode_lem bytes small =
      ap
        (λ (o : Option (List ℕ)). elim o [
          | none ↦ value []
          | some out ↦ resize (length out) (buffer ((length bytes + 2) / 3 * 4) out)
        ])
        (ap (crypto.encode_block bytes) (to_int-small (length bytes) (omega (arith, small)))
          ∙ laws.encoded bytes)
      ∙ resize-prefix (length (code bytes)) (code bytes) _ refl
          (omega (arith, laws.size bytes, small))

  decode_lem :
      (bytes : List ℕ) → length bytes < 2 ^ 30 → base64_decode crypto (code bytes) ≡ value bytes
  unfolding base64_decode
  decode_lem bytes small =
      ap
        (λ (o : Option (List ℕ)). elim o [
          | none ↦ value []
          | some made ↦
              resize (sub_word (length made) (padding (code bytes)))
                (buffer ((length (code bytes) + 3) / 4 * 3) made)
        ])
        (ap (crypto.decode_block (code bytes))
            (to_int-small (length (code bytes)) (omega (arith, laws.size bytes, small)))
          ∙ laws.decoded bytes)
      ∙ ap (λ zs. resize (sub_word (length out) (padding (code bytes))) zs)
          (append_assoc bytes zeros _)
      ∙ resize-prefix (sub_word (length out) (padding (code bytes))) bytes _ size
          (omega (arith, size, small))
    where
      zeros : List ℕ
      zeros = replicate (pad_of (length bytes)) 0

      out : List ℕ
      out = bytes ++ zeros

      size : sub_word (length out) (padding (code bytes)) ≡ length bytes
      size = omega (
        arith,
        length-append bytes zeros,
        length-replicate {A = ℕ} (pad_of (length bytes)) 0,
        laws.padded bytes,
        small,
      )

  -- With OpenSSL's documented behaviour `IsBase64`, at lengths that an `int` holds: for
  -- credentials with a key, whose secret is the code of one that is not empty and shorter than
  -- 2^30 bytes, `sign` returns the code of the HMAC of the time followed by the path with that
  -- secret, and `base64Decode` of that code is the HMAC.
  pub sign_lem :
      (path timestamp secret : List ℕ) (a : Auth)
      → has_credentials a ≡ true
      → a.secret_b64 ≡ code secret
      → is_empty secret ≡ false
      → length secret < 2 ^ 30
      → let mac : List ℕ = crypto.hmac secret (pos (length secret)) (timestamp ++ path) in
        (sign crypto path a timestamp ≡ value (code mac))
        × (base64_decode crypto (code mac) ≡ value mac)
  unfolding sign
  sign_lem path timestamp secret a has e some_secret small = (
    if-true (has_credentials a) _ _ has
        ∙ ap
            (λ (o : Signed (List ℕ)). elim o [
              | value s ↦ sign_with crypto path timestamp s
              | terminated ↦ terminated
            ])
            (ap (base64_decode crypto) e ∙ decode_lem secret small)
        ∙ if-false (is_empty secret) _ _ some_secret
        ∙ ap (λ n. base64_encode crypto (crypto.hmac secret n (timestamp ++ path)))
            (to_int-small (length secret) (omega (arith, small)))
        ∙ encode_lem mac (omega (arith, laws.mac_size secret (timestamp ++ path))),
    decode_lem mac (omega (arith, laws.mac_size secret (timestamp ++ path))),
  )
    where
      mac : List ℕ
      mac = crypto.hmac secret (pos (length secret)) (timestamp ++ path)
