-- ===== src/Md/Auth/Tests.antt =====
-- The property of the signature at concrete credentials, with a code that keeps the bytes as they
-- are: four characters for three bytes, the last of them 65.
use trading_bot_v.Prelude.{
  ℕ, suc, ◌+◌, ◌*◌, ◌/◌, ◌≡◌, ◌∙◌, refl, ap, some, List, [], ◌∷◌, ◌++◌, replicate, length, ◌==◌,
  pos, if◌then◌else◌, arith,
}
use trading_bot_v.Md.Auth.{Auth, Crypto, base64_decode, sign, value, terminated, padding}
use trading_bot_v.Md.Auth.Base64.{IsBase64, pad_of, sign_lem}

code : List ℕ → List ℕ
code [] = []
code (a ∷ []) = a ∷ 65 ∷ 61 ∷ 61 ∷ []
code (a ∷ b ∷ []) = a ∷ b ∷ 65 ∷ 61 ∷ []
code (a ∷ b ∷ c ∷ xs) = a ∷ b ∷ c ∷ 65 ∷ code xs

group : ℕ → ℕ → ℕ → ℕ → List ℕ
group a b c d =
    if d == 65 then a ∷ b ∷ c ∷ [] else if c == 61 then a ∷ 0 ∷ 0 ∷ [] else a ∷ b ∷ 0 ∷ []

decode : List ℕ → List ℕ
decode (a ∷ b ∷ c ∷ d ∷ xs) = group a b c d ++ decode xs
decode _ = []

code-size : (xs : List ℕ) → length (code xs) ≡ (length xs + 2) / 3 * 4
unfolding code
code-size [] = refl
code-size (a ∷ []) = refl
code-size (a ∷ b ∷ []) = refl
code-size (a ∷ b ∷ c ∷ xs) = omega (arith, code-size xs)

pad_of_step : (n : ℕ) → pad_of n ≡ pad_of (suc (suc (suc n)))
pad_of_step n = omega arith

decode-code : (xs : List ℕ) → decode (code xs) ≡ xs ++ replicate (pad_of (length xs)) 0
unfolding code decode group
decode-code [] = refl
decode-code (a ∷ []) = refl
decode-code (a ∷ b ∷ []) = refl
decode-code (a ∷ b ∷ c ∷ xs) =
    ap (λ ys. a ∷ b ∷ c ∷ ys) (decode-code xs)
    ∙ ap (λ n. a ∷ b ∷ c ∷ xs ++ replicate n 0) (pad_of_step (length xs))

code-padding : (xs : List ℕ) → padding (code xs) ≡ pad_of (length xs)
unfolding code
code-padding [] = refl
code-padding (a ∷ []) = refl
code-padding (a ∷ b ∷ []) = refl
code-padding (a ∷ b ∷ c ∷ xs) = code-padding xs ∙ pad_of_step (length xs)

-- The HMAC is taken to be 32 times the length of the text.
abbrev crypto : Crypto
crypto = record {
  decode_block = λ text size. some (decode text);
  encode_block = λ bytes size. some (code bytes);
  hmac = λ key size bytes. replicate 32 (length bytes);
}

crypto-IsBase64 : IsBase64 crypto code
crypto-IsBase64 = record {
  encoded = λ bytes. refl;
  size = code-size;
  padded = code-padding;
  mac_size = λ key bytes. refl;
  decoded = λ bytes. ap some (decode-code bytes);
}

abbrev auth : Auth
auth = record { key = 107 ∷ []; secret_b64 = 115 ∷ 65 ∷ 61 ∷ 61 ∷ []; passphrase = [] }

sign_lem_example :
    (sign crypto (71 ∷ []) auth (49 ∷ [])
      ≡ value (code (crypto.hmac (115 ∷ []) (pos 1) (49 ∷ 71 ∷ []))))
    × (base64_decode crypto (code (crypto.hmac (115 ∷ []) (pos 1) (49 ∷ 71 ∷ [])))
        ≡ value (crypto.hmac (115 ∷ []) (pos 1) (49 ∷ 71 ∷ [])))
unfolding code
sign_lem_example =
    sign_lem crypto code crypto-IsBase64 (71 ∷ []) (49 ∷ []) (115 ∷ []) auth refl refl refl
      (omega arith)

-- A secret of four '=' is decoded to three bytes, of which four are cut off.
base64_decode-equals : base64_decode crypto (61 ∷ 61 ∷ 61 ∷ 61 ∷ []) ≡ terminated
unfolding base64_decode decode group
base64_decode-equals = refl
