-- ===== src/QueryCache.antt =====
-- src/graphql/query_cache.rs: cached responses of the GraphQL schema. The schema, serde_json and the
-- standard hasher are parameters; a poisoned lock is not modelled. Each operation takes the time at
-- which it looks into the cache and the one at which it stores.
pub mod Calls
pub mod Bounds
pub mod Freshness
pub mod Served
use puff.Common.{
  ℕ, ◌-◌, Bool, true, false, ◌||◌, not, Option, none, some, List, [], ◌∷◌, Text, codes, ltb, leb,
  length, if◌then◌else◌, nat_eq, map,
}
use puff.Common.Table
use puff.Common.Table.{Table}
use puff.Common.Strings.{starts_with, trim_start}

-- What the cache calls: the schema over the state of the database behind it, the two directions of
-- serde_json, and the hashes of `query_hash` and of `variables_hash`.
pub record Graphql : Type 1 where
  pub World : Type 0
  pub Variables : Type 0
  pub Response : Type 0
  pub Bytes : Type 0
  pub Headers : Type 0
  pub run : Text → Option Text → Variables → World → Response × World
  pub errors_empty : Response → Bool
  pub http_headers : Response → Headers
  pub no_headers : Headers
  pub to_vec : Response → Option Bytes
  pub from_slice : Bytes → Option Response
  pub empty_object : Bytes
  pub query_hash : Text → Option Text → ℕ
  pub variables_hash : Variables → ℕ

module _ (g : Graphql) where
  open g use {
    World, Variables, Response, Bytes, Headers, run, errors_empty, http_headers, no_headers, to_vec,
    from_slice, empty_object, query_hash, variables_hash,
  }

  pub record Request : Type 0 where
    pub query : Text
    pub operation_name : Option Text
    pub variables : Variables

  pub record CachedResponse : Type 0 where
    pub bytes : Bytes
    pub cached_at : ℕ
    pub ttl : ℕ

  -- `CachedEntry` is the table of its `results`.
  pub record QueryCache : Type 0 where
    pub cache : Table ℕ (Table ℕ CachedResponse)
    pub max_entries : ℕ
    pub enabled : Bool
    pub ttl : ℕ

  -- Times are in milliseconds.
  unfoldable pub new : ℕ → QueryCache
  new max_entries = record { cache = []; max_entries = max_entries; enabled = true; ttl = 5000 }

  unfoldable pub disabled : QueryCache
  disabled = record { cache = []; max_entries = 0; enabled = false; ttl = 0 }

  -- `schema.execute(request)`
  abbrev pub schema_execute : Request → World → Response × World
  schema_execute r w = run r.query r.operation_name r.variables w

  unfoldable pub is_mutation : Request → Bool
  unfolding starts_with trim_start
  is_mutation r = starts_with (codes "mutation") (trim_start r.query)

  unfoldable pub invalidate : QueryCache → QueryCache
  invalidate c = if c.enabled then record c { cache = map (λ e. (e.0, [])) c.cache } else c

  unfoldable pub clear : QueryCache → QueryCache
  clear c = if c.enabled then record c { cache = [] } else c

  -- `cached_at.elapsed() < ttl`
  unfoldable pub is_fresh : ℕ → CachedResponse → Bool
  is_fresh now c = ltb (now - c.cached_at) c.ttl

  unfoldable pub fresh_in : ℕ → Option CachedResponse → Option CachedResponse
  unfolding is_fresh
  fresh_in now none = none
  fresh_in now (some c) = if is_fresh now c then some c else none

  unfoldable pub results_of : Option (Table ℕ CachedResponse) → Table ℕ CachedResponse
  results_of none = []
  results_of (some t) = t

  -- The fast path: a cached response that is still fresh.
  unfoldable pub lookup : Request → ℕ → QueryCache → Option CachedResponse
  unfolding fresh_in results_of
  lookup r now c = fresh_in now (
      Table.get (variables_hash r.variables)
        (results_of (Table.get (query_hash r.query r.operation_name) c.cache)))

  -- The map after the eviction.
  unfoldable pub evicted : QueryCache → Table ℕ (Table ℕ CachedResponse)
  evicted c = if leb c.max_entries (length c.cache) then [] else c.cache

  unfoldable pub store : Request → Bytes → ℕ → QueryCache → QueryCache
  unfolding evicted results_of
  store r bytes now c =
      let q = query_hash r.query r.operation_name in
      record c {
        cache =
            Table.insert q
              (Table.insert (variables_hash r.variables)
                (record { bytes = bytes; cached_at = now; ttl = c.ttl })
                (results_of (Table.get q (evicted c))))
              (evicted c);
      }

  unfoldable pub store_bytes : Request → Option Bytes → ℕ → QueryCache → QueryCache
  unfolding store
  store_bytes r none now c = c
  store_bytes r (some bytes) now c = store r bytes now c

  -- A miss: run the request, and store a response without errors.
  unfoldable pub miss : Request → ℕ → World → QueryCache → Response × World × QueryCache
  unfolding store_bytes
  miss r now w c =
      let (response, w') = schema_execute r w in
      (response, w', if errors_empty response then store_bytes r (to_vec response) now c else c)

  unfoldable pub read_back : Option CachedResponse → Option Response
  read_back none = none
  read_back (some c) = from_slice c.bytes

  unfoldable pub execute : Request → ℕ → ℕ → World → QueryCache → Response × World × QueryCache
  unfolding is_mutation invalidate lookup miss read_back
  execute r now stored_at w c =
      if not c.enabled
      then (let (response, w') = schema_execute r w in (response, w', c))
      else if is_mutation r
      then (let (response, w') = schema_execute r w in (response, w', invalidate c))
      else (elim (read_back (lookup r now c)) [
        | some response ↦ (response, w, c)
        | none ↦ miss r stored_at w c
      ])

  -- `unwrap_or_else(|_| b"{}".to_vec())`
  unfoldable pub bytes_of : Response → Bytes
  bytes_of response = elim (to_vec response) [ none ↦ empty_object | some bytes ↦ bytes ]

  unfoldable pub miss_to_bytes :
      Request → ℕ → World → QueryCache → (Bytes × Headers) × World × QueryCache
  unfolding bytes_of store
  miss_to_bytes r now w c =
      let (response, w') = schema_execute r w in
      (
        (bytes_of response, http_headers response),
        w',
        if errors_empty response then store r (bytes_of response) now c else c,
      )

  unfoldable pub execute_to_bytes :
      Request → ℕ → ℕ → World → QueryCache → (Bytes × Headers) × World × QueryCache
  unfolding is_mutation invalidate lookup miss_to_bytes
  execute_to_bytes r now stored_at w c =
      if not c.enabled
      then (let (response, w') = schema_execute r w in
          ((bytes_of response, http_headers response), w', c))
      else if is_mutation r
      then (let (response, w') = schema_execute r w in
          ((bytes_of response, http_headers response), w', invalidate c))
      else (elim (lookup r now c) [
        | some cached ↦ ((cached.bytes, no_headers), w, c)
        | none ↦ miss_to_bytes r stored_at w c
      ])
