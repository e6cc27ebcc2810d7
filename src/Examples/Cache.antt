-- ===== src/Examples/Cache.antt =====
-- A schema that counts its mutations.
use puff.Common.{
  ℕ, suc, ◌+◌, ◌≡◌, true, none, some, List, [], ◌∷◌, Text, codes, length, if◌then◌else◌, arith,
}
use puff.Common.Strings.{starts_with, trim_start}
use puff.QueryCache.{Graphql, Request, new, is_mutation, bytes_of}
use puff.QueryCache.Calls.{Call, request, request_bytes, clears, perform_all, direct_all}
use puff.QueryCache.Freshness.{Cacheable}
use puff.QueryCache.Served.{cache_is_transparent}

answer : Text → ℕ → ℕ × ℕ
answer q w = if starts_with (codes "mutation") (trim_start q) then (w, suc w) else (length q + w, w)

abbrev counter : Graphql
counter = record {
  World = ℕ;
  Variables = Unit;
  Response = ℕ;
  Bytes = ℕ;
  Headers = Unit;
  run = λ q o v w. answer q w;
  errors_empty = λ r. true;
  http_headers = λ r. tt;
  no_headers = tt;
  to_vec = λ r. some r;
  from_slice = λ b. some b;
  empty_object = 0;
  query_hash = λ q o. length q;
  variables_hash = λ v. 0;
}

counter-Cacheable : Cacheable counter
unfolding is_mutation answer bytes_of
counter-Cacheable = record {
  reads = λ r w m. ground arith;
  same_hashes = λ r s w m n e f. ground arith;
  rewrites = λ x y e. ground arith;
}

abbrev asks : Text → Request counter
asks q = record { query = q; operation_name = none; variables = tt }

abbrev calls : List (Call counter)
calls =
    request (asks (codes "{ a }")) 0 1
    ∷ request_bytes (asks (codes "{ a }")) 2 3
    ∷ request (asks (codes " mutation { b }")) 4 5
    ∷ request (asks (codes "{ a }")) 6 7
    ∷ clears
    ∷ []

cache_is_transparent_example :
    (
      (perform_all counter calls 0 (new counter 1)).0,
      (perform_all counter calls 0 (new counter 1)).1,
    )
    ≡ direct_all counter calls 0
cache_is_transparent_example = cache_is_transparent counter counter-Cacheable 1 calls 0
