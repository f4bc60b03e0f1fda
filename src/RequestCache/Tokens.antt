-- ===== src/RequestCache/Tokens.antt =====
-- The tokens of the cache: requestCache.uniqueToken of pkg/streaming/request_cache.go, and the part
-- of encoding/base64 that it uses: six bytes are two groups of three, without padding.
use apiserver.Base.{
  ℕ, zero, suc, ◌+◌, ◌*◌, Char, String, Option, none, some, Map, lookup, len, ◌+s◌, len-append,
  error_new, Result, ok, err, ◌≡◌, refl, ap, sym, subst, arith,
}
use Prim.Native.Nat.{◌/◌, ◌%◌}
use Prim.Native.String.{[], ◌∷◌}

-- The buffer `rawToken`, of tokenSize = ceil(8 * 6 / 8) = 6 bytes.
pub record RawToken : Type 0 where
  pub b0 : ℕ
  pub b1 : ℕ
  pub b2 : ℕ
  pub b3 : ℕ
  pub b4 : ℕ
  pub b5 : ℕ

abbrev pub token_len : ℕ
token_len = 8

abbrev max_tries : ℕ
max_tries = 10

-- The n-th character of the alphabet; the last one stands for the positions behind it.
abbrev letter_of : String → ℕ → Char
letter_of [] n = "_"
letter_of (c ∷ s) zero = c
letter_of (c ∷ s) (suc n) = letter_of s n

abbrev alphabet : String
alphabet = "ABCDEFGHIJKLMNOPQRSTUVWXYZabcdefghijklmnopqrstuvwxyz0123456789-_"

letter : ℕ → Char
letter n = letter_of alphabet n

group : ℕ → ℕ → ℕ → String
group a b c =
    letter (a / 4)
    ∷ (letter (a % 4 * 16 + b / 16) ∷ (letter (b % 16 * 4 + c / 64) ∷ (letter (c % 64) ∷ [])))

-- base64.RawURLEncoding.EncodeToString
unfoldable pub encode : RawToken → String
unfolding group letter
encode r = group r.b0 r.b1 r.b2 +s group r.b3 r.b4 r.b5

-- `s[:n]`, where n is at most the length
abbrev pub upto : ℕ → String → String
upto zero s = []
upto (suc n) [] = []
upto (suc n) (c ∷ s) = c ∷ upto n s

-- What one round does with the entry of the encoded bytes, and with the next rounds.
keep_new : {A : Type 0} → Option A → RawToken → Result String → Result String
unfolding encode
keep_new none raw rest = ok (upto token_len (encode raw))
keep_new (some _) raw rest = rest

try_token : {A : Type 0} → Result RawToken → Map A → Result String → Result String
unfolding encode keep_new
try_token (err e) tokens rest = err e
try_token (ok raw) tokens rest = keep_new (lookup (encode raw) tokens) raw rest

unique_token_loop : {A : Type 0} → ℕ → ℕ → (ℕ → Result RawToken) → Map A → Result String
unfolding try_token
unique_token_loop zero i reads tokens = err (error_new "failed to generate unique token")
unique_token_loop (suc tries) i reads tokens =
    try_token (reads i) tokens (unique_token_loop tries (suc i) reads tokens)

unfoldable pub unique_token : {A : Type 0} → (ℕ → Result RawToken) → Map A → Result String
unfolding unique_token_loop
unique_token reads tokens = unique_token_loop max_tries 0 reads tokens

pub len-encode : (r : RawToken) → len (encode r) ≡ token_len
unfolding encode group
len-encode r = len-append (group r.b0 r.b1 r.b2) (group r.b3 r.b4 r.b5)

upto-len : (s : String) (n : ℕ) → len s ≡ n → upto n s ≡ s
upto-len [] zero e = refl
upto-len [] (suc n) e = refl
upto-len (c ∷ s) zero e = absurd (omega (arith, e))
upto-len (c ∷ s) (suc n) e = ap (λ t. c ∷ t) (upto-len s n (omega (arith, e)))

-- The text that the loop looks up is the token that it returns.
pub upto-encode : (r : RawToken) → upto token_len (encode r) ≡ encode r
upto-encode r = upto-len (encode r) token_len (len-encode r)

ok_inj : {s t u : String} → s ≡ t → ok t ≡ ok u → s ≡ u
ok_inj e g = cc

module _ {A : Type 0} where
  try_token-fresh :
      (r : Result RawToken) (tokens : Map A) (rest : Result String) (t : String)
      → (rest ≡ ok t → lookup t tokens ≡ none)
      → try_token r tokens rest ≡ ok t
      → lookup t tokens ≡ none
  unfolding try_token keep_new
  try_token-fresh (err e) tokens rest t k h = cc
  try_token-fresh (ok raw) tokens rest t k h = by_entry (lookup (encode raw) tokens) refl h
    where
      by_entry :
          (o : Option A)
          → lookup (encode raw) tokens ≡ o
          → keep_new o raw rest ≡ ok t
          → lookup t tokens ≡ none
      by_entry none e g = subst (λ s. lookup s tokens ≡ none) (ok_inj (sym (upto-encode raw)) g) e
      by_entry (some _) e g = k g

  loop-fresh :
      (tries i : ℕ) (reads : ℕ → Result RawToken) (tokens : Map A) (t : String)
      → unique_token_loop tries i reads tokens ≡ ok t
      → lookup t tokens ≡ none
  unfolding unique_token_loop
  loop-fresh zero i reads tokens t h = cc
  loop-fresh (suc tries) i reads tokens t h =
      try_token-fresh (reads i) tokens (unique_token_loop tries (suc i) reads tokens) t
        (loop-fresh tries (suc i) reads tokens t) h

  -- A token that the loop returns is not in the map.
  pub unique_token-fresh :
      (reads : ℕ → Result RawToken) (tokens : Map A) (t : String)
      → unique_token reads tokens ≡ ok t
      → lookup t tokens ≡ none
  unfolding unique_token
  unique_token-fresh reads tokens t h = loop-fresh max_tries 0 reads tokens t h

  -- The loop takes the first bytes when their encoding is not in the map.
  pub unique_token-first :
      (reads : ℕ → Result RawToken) (tokens : Map A) (raw : RawToken)
      → reads 0 ≡ ok raw
      → lookup (encode raw) tokens ≡ none
      → unique_token reads tokens ≡ ok (encode raw)
  unfolding unique_token unique_token_loop try_token keep_new
  unique_token-first reads tokens raw h e = rw h (rw e (ap ok (upto-encode raw)))
