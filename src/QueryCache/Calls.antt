-- ===== src/QueryCache/Calls.antt =====
-- src/graphql/query_cache.rs: what the clients of one cache call, one call after the other.
use puff.Common.{ℕ, List, [], ◌∷◌}
use puff.QueryCache.{
  Graphql, Request, QueryCache, execute, execute_to_bytes, bytes_of, schema_execute, invalidate,
  clear,
}

module _ (g : Graphql) where
  -- A request carries the time of its look into the cache and that of its response.
  pub data Call : Type 0 where
    request : Request g → ℕ → ℕ → Call
    request_bytes : Request g → ℕ → ℕ → Call
    invalidates : Call
    clears : Call

  -- The body that the caller of a request gets, as bytes.
  unfoldable pub perform : Call → g.World → QueryCache g → List g.Bytes × g.World × QueryCache g
  perform (request r now at) w c =
      let (response, w', c') = execute g r now at w c in (bytes_of g response ∷ [], w', c')
  perform (request_bytes r now at) w c =
      let ((bytes, headers), w', c') = execute_to_bytes g r now at w c in (bytes ∷ [], w', c')
  perform invalidates w c = ([], w, invalidate g c)
  perform clears w c = ([], w, clear g c)

  -- The same call of a server without a cache.
  unfoldable pub direct : Call → g.World → List g.Bytes × g.World
  direct (request r now at) w =
      let (response, w') = schema_execute g r w in (bytes_of g response ∷ [], w')
  direct (request_bytes r now at) w =
      let (response, w') = schema_execute g r w in (bytes_of g response ∷ [], w')
  direct invalidates w = ([], w)
  direct clears w = ([], w)

  unfoldable pub perform_all :
      List Call → g.World → QueryCache g → List (List g.Bytes) × g.World × QueryCache g
  unfolding perform
  perform_all [] w c = ([], w, c)
  perform_all (a ∷ calls) w c =
      let (bodies, w', c') = perform a w c in
      let (rest, w'', c'') = perform_all calls w' c' in (bodies ∷ rest, w'', c'')

  unfoldable pub direct_all : List Call → g.World → List (List g.Bytes) × g.World
  unfolding direct
  direct_all [] w = ([], w)
  direct_all (a ∷ calls) w =
      let (bodies, w') = direct a w in let (rest, w'') = direct_all calls w' in (bodies ∷ rest, w'')
