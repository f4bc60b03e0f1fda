-- ===== src/RequestCache.antt =====
-- The cache of streaming requests: pkg/streaming/request_cache.go, and the one error of
-- pkg/streaming/errors.go that it makes.
--
-- `*list.Element` is an address with the value behind it, which never changes; the list gives each
-- new element an address that no element had. `ll` is written from its back, the oldest, to its
-- front. The clock is read into `now`; `reads i` is what the i-th rand.Read leaves in the buffer.
pub mod Tokens
pub mod Lists
pub mod Invariant
pub mod Laws
mod Tests
use apiserver.Base.{
  ℕ, suc, ◌+◌, String, Bool, List, [], ◌∷◌, ◌++◌, Option, none, some, Map, lookup, put, delete,
  length, Error, error_new, Result, ok, err, ltb, nat_eq, if◌then◌else◌,
}
use apiserver.RequestCache.Tokens.{RawToken, unique_token}

pub record CacheEntry (R : Type 0) : Type 0 where
  pub token : String
  pub req : R
  pub expire_time : ℕ

pub record Element (R : Type 0) : Type 0 where
  pub id : ℕ
  pub value : CacheEntry R

pub record RequestCache (R : Type 0) : Type 0 where
  pub tokens : Map (Element R)
  pub ll : List (Element R)
  pub next_id : ℕ

-- In nanoseconds, as time.Duration counts.
abbrev pub cache_ttl : ℕ
cache_ttl = 60000000000

abbrev pub max_in_flight : ℕ
max_in_flight = 1000

abbrev pub too_many_in_flight : Error
too_many_in_flight = error_new "maximum number of in-flight requests exceeded"

abbrev pub new_request_cache : {R : Type 0} → RequestCache R
new_request_cache = record { tokens = []; ll = []; next_id = 0 }

-- `c.ll.Remove(ele)`
abbrev pub remove : {R : Type 0} → ℕ → List (Element R) → List (Element R)
remove i [] = []
remove i (e ∷ es) = if nat_eq e.id i then es else e ∷ remove i es

-- `now.After(entry.expireTime)`
abbrev pub is_expired : {R : Type 0} → ℕ → Element R → Bool
is_expired now e = ltb e.value.expire_time now

-- The loop of gc.
abbrev pub sweep :
    {R : Type 0} → ℕ → Map (Element R) → List (Element R) → Map (Element R) × List (Element R)
sweep now tokens [] = (tokens, [])
sweep now tokens (oldest ∷ ll) =
    let rest = sweep now (delete oldest.value.token tokens) ll in
    if is_expired now oldest then rest else (tokens, oldest ∷ ll)

unfoldable pub gc : {R : Type 0} → ℕ → RequestCache R → RequestCache R
gc now c = let swept = sweep now c.tokens c.ll in record c { tokens = swept.0; ll = swept.1 }

-- `c.ll.PushFront(&cacheEntry{token, req, expireTime})` and the entry of the map.
abbrev pub push : {R : Type 0} → String → R → ℕ → RequestCache R → RequestCache R
push {R} token req expire_time c =
    let ele : Element R = record {
      id = c.next_id;
      value = record { token = token; req = req; expire_time = expire_time };
    } in
    record { tokens = put token ele c.tokens; ll = c.ll ++ (ele ∷ []); next_id = suc c.next_id }

-- What Insert returns after uniqueToken.
pub insert_token :
    {R : Type 0} → ℕ → R → RequestCache R → Result String → Result String × RequestCache R
insert_token later req c (err e) = (err e, c)
insert_token later req c (ok token) = (ok token, push token req (later + cache_ttl) c)

-- Insert after the removal of the expired entries.
pub insert_into :
    {R : Type 0} → ℕ → (ℕ → Result RawToken) → R → RequestCache R → Result String × RequestCache R
unfolding insert_token
insert_into later reads req c =
    if nat_eq (length c.ll) max_in_flight
    then (err too_many_in_flight, c)
    else insert_token later req c (unique_token reads c.tokens)

-- The clock is read again, at `later`, for the expiry of the new entry.
unfoldable pub insert :
    {R : Type 0}
    → ℕ
    → ℕ
    → (ℕ → Result RawToken)
    → R
    → RequestCache R
    → Result String × RequestCache R
unfolding insert_into
insert now later reads req c = insert_into later reads req (gc now c)

-- What Consume does with what it finds under the token.
pub consumed :
    {R : Type 0} → ℕ → String → RequestCache R → Option (Element R) → Option R × RequestCache R
consumed now token c none = (none, c)
consumed now token c (some ele) =
    let c' = record c { tokens = delete token c.tokens; ll = remove ele.id c.ll } in
    if is_expired now ele then (none, c') else (some ele.value.req, c')

unfoldable pub consume : {R : Type 0} → ℕ → String → RequestCache R → Option R × RequestCache R
unfolding consumed
consume now token c = consumed now token c (lookup token c.tokens)
