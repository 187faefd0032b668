-- ===== src/Md/Auth.antt =====
-- md/coinbase_auth.hpp and src/md/coinbase_auth.cpp, `class CoinbaseAuth`. Texts are their bytes.
-- OpenSSL's functions and the environment are parameters.
use trading_bot_v.Prelude.{
  ℕ, suc, ◌+◌, ◌-◌, ◌*◌, ◌/◌, ◌%◌, ◌^◌, ℤ, sub_ℕ, pos, ltb, Bool, true, false, not, ◌&&◌, Option,
  none, some, List, [], ◌∷◌, ◌++◌, take, replicate, length, leb, ◌==◌, if◌then◌else◌, String,
}
use trading_bot_v.Util.SpscQueue.{sub_word}
mod Base64
mod Tests

-- `EVP_DecodeBlock` and `EVP_EncodeBlock` of the bytes at a pointer and an `int` length, with what
-- they write, `none` for a negative answer, and `HMAC` with `EVP_sha256`, a key and its `int` length
pub record Crypto : Type 0 where
  pub decode_block : List ℕ → ℤ → Option (List ℕ)
  pub encode_block : List ℕ → ℤ → Option (List ℕ)
  pub hmac : List ℕ → ℤ → List ℕ → List ℕ

-- `static_cast<int>` of a `size_t`: the low 32 bits, as a signed number
abbrev pub to_int : ℕ → ℤ
to_int n = let low = n % 2 ^ 32 in if ltb low (2 ^ 31) then pos low else sub_ℕ low (2 ^ 32)

-- what a `noexcept` function returns, or that an exception in it ends the program
pub data Signed (A : Type 0) : Type 0 where
  value : A → Signed A
  terminated : Signed A

-- the members
pub record Auth : Type 0 where
  pub key : List ℕ
  pub secret_b64 : List ℕ
  pub passphrase : List ℕ

abbrev pub no_auth : Auth
no_auth = record { key = []; secret_b64 = []; passphrase = [] }

abbrev pub is_empty : List ℕ → Bool
is_empty [] = true
is_empty (c ∷ cs) = false

abbrev pub has_credentials : Auth → Bool
has_credentials a = not (is_empty a.key) && not (is_empty a.secret_b64)

-- `std::string::resize`, which throws on a size above its maximum
abbrev pub resize : ℕ → List ℕ → Signed (List ℕ)
resize n s =
    if leb n (2 ^ 63 - 1) then value (take n s ++ replicate (n - length s) 0) else terminated

-- a buffer of this size of which the beginning is written
abbrev pub buffer : ℕ → List ℕ → List ℕ
buffer n out = out ++ replicate (n - length out) 0

-- the length of the run of '=' at the end, with that of the run before a text
abbrev pub run_of : ℕ → List ℕ → ℕ
run_of n [] = n
run_of n (c ∷ cs) = run_of (if c == 61 then n + 1 else 0) cs

abbrev pub padding : List ℕ → ℕ
padding text = run_of 0 text

module _ (crypto : Crypto) where
  unfoldable pub base64_decode : List ℕ → Signed (List ℕ)
  base64_decode text = elim (crypto.decode_block text (to_int (length text))) [
    | none ↦ value []
    | some out ↦
        resize (sub_word (length out) (padding text)) (buffer ((length text + 3) / 4 * 3) out)
  ]

  unfoldable pub base64_encode : List ℕ → Signed (List ℕ)
  base64_encode bytes = elim (crypto.encode_block bytes (to_int (length bytes))) [
    | none ↦ value []
    | some out ↦ resize (length out) (buffer ((length bytes + 2) / 3 * 4) out)
  ]

  -- the signature with a secret that is decoded
  abbrev pub sign_with : List ℕ → List ℕ → List ℕ → Signed (List ℕ)
  sign_with path timestamp secret =
      if is_empty secret
      then value []
      else base64_encode (crypto.hmac secret (to_int (length secret)) (timestamp ++ path))

  -- `path` is the text "GET/users/self/verify".
  unfoldable pub sign : List ℕ → Auth → List ℕ → Signed (List ℕ)
  unfolding base64_decode base64_encode
  sign path a timestamp =
      if has_credentials a
      then elim (base64_decode a.secret_b64) [
        | value secret ↦ sign_with path timestamp secret
        | terminated ↦ terminated
      ]
      else value []

-- `getenv` gives a variable's value, if it is set.
abbrev pub from_env : (String → Option (List ℕ)) → Auth
from_env getenv = elim (getenv "COINBASE_API_KEY") [
  | none ↦ no_auth
  | some key ↦ elim (getenv "COINBASE_API_SECRET") [
    | none ↦ no_auth
    | some secret ↦ record {
      key = key;
      secret_b64 = secret;
      passphrase = elim (getenv "COINBASE_API_PASSPHRASE") [ none ↦ [] | some pass ↦ pass ];
    }
  ]
]
