-- ===== src/RequestCache/Tests.antt =====
-- Runs of the cache of streaming requests, and instances of its theorems.
use apiserver.Base.{ℕ, ◌+◌, String, none, some, Result, ok, err, error_new, ◌≡◌, refl, arith}
use apiserver.RequestCache.{RequestCache, cache_ttl, gc, insert, consume, new_request_cache}
use apiserver.RequestCache.Tokens.{RawToken, encode, unique_token}
use apiserver.RequestCache.Invariant.{WellFormed, WellFormed-new}
use apiserver.RequestCache.Laws.{
  Reachable, fresh_cache, inserting, consuming, unexpired, Reachable-WellFormed, gc-unexpired,
  consume-consume, consume-insert,
}

abbrev raw : RawToken
raw = record { b0 = 0; b1 = 16; b2 = 131; b3 = 16; b4 = 81; b5 = 255 }

abbrev reads : ℕ → Result RawToken
reads i = ok raw

encoded : encode raw ≡ "ABCDEFH_"
unfolding encode
encoded = refl

abbrev empty : RequestCache String
empty = new_request_cache

abbrev one : RequestCache String
one = (insert 5 7 reads "exec" empty).1

taken : (insert 5 7 reads "exec" empty).0 ≡ ok "ABCDEFH_"
unfolding insert gc unique_token encode
taken = refl

repeated : (insert 8 9 reads "attach" one).0 ≡ err (error_new "failed to generate unique token")
unfolding insert gc unique_token encode
repeated = refl

given : (consume 20 "ABCDEFH_" one).0 ≡ some "exec"
unfolding consume insert gc unique_token encode
given = refl

expired : (consume (8 + cache_ttl) "ABCDEFH_" one).0 ≡ none
unfolding consume insert gc unique_token encode
expired = refl

Reachable-one : Reachable 7 one
Reachable-one = inserting reads "exec" (omega arith) (omega arith) fresh_cache

Reachable-WellFormed_example : WellFormed 7 (consume 7 "ABCDEFH_" one).1
Reachable-WellFormed_example =
    Reachable-WellFormed 7 (consume 7 "ABCDEFH_" one).1 (consuming "ABCDEFH_" Reachable-one)

gc-unexpired_example : (gc (8 + cache_ttl) one).ll ≡ unexpired (8 + cache_ttl) one.ll
gc-unexpired_example = gc-unexpired 7 (8 + cache_ttl) one (Reachable-WellFormed 7 one Reachable-one)

consume-consume_example : (consume 20 "ABCDEFH_" (consume 9 "ABCDEFH_" one).1).0 ≡ none
consume-consume_example = consume-consume 9 20 "ABCDEFH_" one

consume-insert_example :
    ((consume 20 "ABCDEFH_" one).0 ≡ some "exec")
    × ((consume 20 "ABCDEFH_" one).1.ll ≡ unexpired 5 empty.ll)
consume-insert_example =
    consume-insert 0 5 7 20 reads "exec" empty "ABCDEFH_" WellFormed-new taken (omega arith)
