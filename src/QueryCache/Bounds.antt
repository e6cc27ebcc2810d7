-- ===== src/QueryCache/Bounds.antt =====
-- How many queries the cache holds.
use puff.Common.{
  ℕ, ◌≤◌, ◌≡◌, refl, Option, none, some, List, [], ◌∷◌, arith, leb, length, if_keeps, nat_eq,
  Bool-cases, Option-cases, inl, inr, ◌⊎◌, map, not,
}
use puff.Common.Table
use puff.Common.Table.{Table, length-insert_le}
use puff.QueryCache.{
  Graphql, Request, QueryCache, new, execute, execute_to_bytes, schema_execute, is_mutation,
  invalidate, clear, store, store_bytes, evicted, miss, miss_to_bytes, lookup, read_back, bytes_of,
  results_of,
}
use puff.QueryCache.Calls.{Call, request, request_bytes, invalidates, clears, perform, perform_all}

length-map : {K V : Type 0} (f : K × V → K × V) (xs : List (K × V)) → length (map f xs) ≡ length xs
length-map f [] = refl
length-map f (x ∷ xs) = ground (arith, length-map f xs)

module _ (g : Graphql) (n : ℕ) where
  -- At most `max_entries` queries, or the one that the cache has just stored.
  pub record Bounded (c : QueryCache g) : Type 0 where
    pub max : c.max_entries ≡ n
    pub size : (length c.cache ≤ n) ⊎ (length c.cache ≤ 1)

  store-Bounded :
      (r : Request g) (b : g.Bytes) (now : ℕ) (c : QueryCache g)
      → Bounded c
      → Bounded (store g r b now c)
  unfolding store evicted Table.insert
  store-Bounded r b now c k = elim (Bool-cases (leb c.max_entries (length c.cache))) [
    | inl h ↦ record { max = k.max; size = rw h (inr (omega arith)) }
    | inr h ↦ record {
      max = k.max;
      size = rw h (
          inl (
            ground (
              arith,
              length-insert_le (g.query_hash r.query r.operation_name)
                  (Table.insert (g.variables_hash r.variables)
                    (record { bytes = b; cached_at = now; ttl = c.ttl })
                    (results_of g (Table.get (g.query_hash r.query r.operation_name) c.cache)))
                  c.cache,
              k.max,
            )));
    }
  ]

  invalidate-Bounded : (c : QueryCache g) → Bounded c → Bounded (invalidate g c)
  unfolding invalidate
  invalidate-Bounded c k =
      if_keeps Bounded c.enabled
        (record { max = k.max; size = rw (length-map (λ e. (e.0, [])) c.cache) k.size }) k

  clear-Bounded : (c : QueryCache g) → Bounded c → Bounded (clear g c)
  unfolding clear
  clear-Bounded c k =
      if_keeps Bounded c.enabled (record { max = k.max; size = inr (omega arith) }) k

  store_bytes-Bounded :
      (r : Request g) (b : Option g.Bytes) (now : ℕ) (c : QueryCache g)
      → Bounded c
      → Bounded (store_bytes g r b now c)
  unfolding store_bytes
  store_bytes-Bounded r none now c k = k
  store_bytes-Bounded r (some b) now c k = store-Bounded r b now c k

  miss-Bounded :
      (r : Request g) (now : ℕ) (w : g.World) (c : QueryCache g)
      → Bounded c
      → Bounded (miss g r now w c).2
  unfolding miss
  miss-Bounded r now w c k =
      if_keeps Bounded (g.errors_empty (schema_execute g r w).0)
        (store_bytes-Bounded r (g.to_vec (schema_execute g r w).0) now c k) k

  miss_to_bytes-Bounded :
      (r : Request g) (now : ℕ) (w : g.World) (c : QueryCache g)
      → Bounded c
      → Bounded (miss_to_bytes g r now w c).2
  unfolding miss_to_bytes
  miss_to_bytes-Bounded r now w c k =
      if_keeps Bounded (g.errors_empty (schema_execute g r w).0)
        (store-Bounded r (bytes_of g (schema_execute g r w).0) now c k) k

  execute-Bounded :
      (r : Request g) (now at : ℕ) (w : g.World) (c : QueryCache g)
      → Bounded c
      → Bounded (execute g r now at w c).2
  unfolding execute
  execute-Bounded r now at w c k =
      if_keeps (λ (t : g.Response × g.World × QueryCache g). Bounded t.2) (not c.enabled) k
        (if_keeps (λ (t : g.Response × g.World × QueryCache g). Bounded t.2) (is_mutation g r)
          (invalidate-Bounded c k)
          (elim (Option-cases (read_back g (lookup g r now c))) [
            | inl e ↦ rw e (miss-Bounded r at w c k)
            | inr (x, e) ↦ rw e k
          ]))

  execute_to_bytes-Bounded :
      (r : Request g) (now at : ℕ) (w : g.World) (c : QueryCache g)
      → Bounded c
      → Bounded (execute_to_bytes g r now at w c).2
  unfolding execute_to_bytes
  execute_to_bytes-Bounded r now at w c k =
      if_keeps (λ (t : (g.Bytes × g.Headers) × g.World × QueryCache g). Bounded t.2) (not c.enabled)
        k
        (if_keeps (λ (t : (g.Bytes × g.Headers) × g.World × QueryCache g). Bounded t.2)
          (is_mutation g r) (invalidate-Bounded c k)
          (elim (Option-cases (lookup g r now c)) [
            | inl e ↦ rw e (miss_to_bytes-Bounded r at w c k)
            | inr (x, e) ↦ rw e k
          ]))

  perform-Bounded :
      (a : Call g) (w : g.World) (c : QueryCache g) → Bounded c → Bounded (perform g a w c).2
  unfolding perform
  perform-Bounded (request r now at) w c k = execute-Bounded r now at w c k
  perform-Bounded (request_bytes r now at) w c k = execute_to_bytes-Bounded r now at w c k
  perform-Bounded invalidates w c k = invalidate-Bounded c k
  perform-Bounded clears w c k = clear-Bounded c k

  perform_all-Bounded :
      (calls : List (Call g)) (w : g.World) (c : QueryCache g)
      → Bounded c
      → Bounded (perform_all g calls w c).2
  unfolding perform_all
  perform_all-Bounded [] w c k = k
  perform_all-Bounded (a ∷ calls) w c k =
      perform_all-Bounded calls (perform g a w c).1 (perform g a w c).2 (perform-Bounded a w c k)

  -- Whatever is asked of a new cache, it holds at most `max_entries` queries, and one where that number
  -- is zero.
  pub cached_queries_le :
      (calls : List (Call g)) (w : g.World)
      → (length (perform_all g calls w (new g n)).2.cache ≤ n)
        ⊎ (length (perform_all g calls w (new g n)).2.cache ≤ 1)
  unfolding new
  cached_queries_le calls w =
      (perform_all-Bounded calls w (new g n) (record { max = refl; size = inl (omega arith) })).size
