-- ===== src/QueryCache/Freshness.antt =====
-- A server with the cache against one without it.
use puff.Common.{
  ℕ, ◌≡◌, refl, sym, ap, ◌∙◌, true, false, Option, none, some, [], ◌∷◌, arith, leb, length,
  if_keeps, Option-cases, inl, inr, ◌⊎◌, map, nat_eq,
}
use puff.Common.Table
use mathlib.Core.Option
use puff.Common.Table.{Table, get-insert}
use puff.QueryCache.{
  Graphql, Request, CachedResponse, QueryCache, schema_execute, is_mutation, invalidate, clear,
  store, store_bytes, evicted, lookup, bytes_of, results_of, fresh_in,
}

fresh_in-found :
    {g : Graphql} (now : ℕ) (o : Option (CachedResponse g)) (x : CachedResponse g)
    → fresh_in g now o ≡ some x
    → o ≡ some x
unfolding fresh_in
fresh_in-found now none x h = h
fresh_in-found now (some y) x h = ground arith

get-emptied :
    {V : Type 0} (q : ℕ) (t : Table ℕ (Table ℕ V))
    → Table.get {V = Table ℕ V} q (map (λ e. (e.0, [])) t) ≡ Option.map (λ x. []) (Table.get q t)
unfolding Table.get
get-emptied q [] = refl
get-emptied q ((k, v) ∷ t) = ground (arith, get-emptied q t)

module _ (g : Graphql) where
  -- What the cache relies on. Requests that are not mutations to it do not change the data, those with
  -- the same hashes have the same answer, and a response that is read back is written as before.
  pub record Cacheable : Type 0 where
    pub reads :
        (r : Request g) (w : g.World) → is_mutation g r ≡ false → (schema_execute g r w).1 ≡ w
    pub same_hashes :
        (r s : Request g) (w : g.World)
        → is_mutation g r ≡ false
        → is_mutation g s ≡ false
        → g.query_hash r.query r.operation_name ≡ g.query_hash s.query s.operation_name
        → g.variables_hash r.variables ≡ g.variables_hash s.variables
        → bytes_of g (schema_execute g r w).0 ≡ bytes_of g (schema_execute g s w).0
    pub rewrites :
        (x y : g.Response) → g.from_slice (bytes_of g x) ≡ some y → bytes_of g y ≡ bytes_of g x

  -- What is cached under two hashes, fresh or not.
  abbrev found : ℕ → ℕ → QueryCache g → Option (CachedResponse g)
  found q v c = Table.get v (results_of g (Table.get q c.cache))

  found-insert :
      (q v q' v' : ℕ) (x y : CachedResponse g) (t : Table ℕ (Table ℕ (CachedResponse g)))
      → Table.get v (
          results_of g
            (Table.get q (Table.insert q' (Table.insert v' y (results_of g (Table.get q' t))) t)))
        ≡ some x
      → ((q' ≡ q) × (v' ≡ v) × (x ≡ y)) ⊎ (Table.get v (results_of g (Table.get q t)) ≡ some x)
  unfolding results_of
  found-insert q v q' v' x y t h = ground (
    arith,
    get-insert q' q (Table.insert v' y (results_of g (Table.get q' t))) t,
    get-insert v' v y (results_of g (Table.get q' t)),
    nat_eq.beq_iff q' q,
    nat_eq.beq_iff v' v,
  )

  found-evicted :
      (q v : ℕ) (x : CachedResponse g) (c : QueryCache g)
      → Table.get v (results_of g (Table.get q (evicted g c))) ≡ some x
      → found q v c ≡ some x
  unfolding evicted results_of Table.get
  found-evicted q v x c =
      if_keeps (λ t. Table.get v (results_of g (Table.get q t)) ≡ some x → found q v c ≡ some x)
        (leb c.max_entries (length c.cache)) (λ h. cc) (λ h. h)

  found-store :
      (q v : ℕ) (x : CachedResponse g) (r : Request g) (b : g.Bytes) (now : ℕ) (c : QueryCache g)
      → found q v (store g r b now c) ≡ some x
      → ((g.query_hash r.query r.operation_name ≡ q)
          × (g.variables_hash r.variables ≡ v)
          × (x.bytes ≡ b))
        ⊎ (found q v c ≡ some x)
  unfolding store
  found-store q v x r b now c h =
      elim (found-insert q v (g.query_hash r.query r.operation_name) (g.variables_hash r.variables)
        x (record { bytes = b; cached_at = now; ttl = c.ttl }) (evicted g c) h) [
          | inl (e, e', e'') ↦ inl (e, e', ap (λ (y : CachedResponse g). y.bytes) e'')
          | inr e ↦ inr (found-evicted q v x c e)
        ]

  invalidate-on :
      (c : QueryCache g) → c.enabled ≡ true → (invalidate g c).cache ≡ map (λ e. (e.0, [])) c.cache
  unfolding invalidate
  invalidate-on c on = rw on refl

  found-invalidate :
      (q v : ℕ) (c : QueryCache g) → c.enabled ≡ true → found q v (invalidate g c) ≡ none
  unfolding results_of Table.get
  found-invalidate q v c on = elim (Option-cases (Table.get q c.cache)) [
    | inl e ↦ rw (invalidate-on c on, get-emptied q c.cache, e) refl
    | inr (t, e) ↦ rw (invalidate-on c on, get-emptied q c.cache, e) refl
  ]

  -- Every response that is cached, fresh or not, is the body of each query with its two hashes.
  pub record Sound (w : g.World) (c : QueryCache g) : Type 0 where
    pub answers :
        (s : Request g) (x : CachedResponse g)
        → c.enabled ≡ true
        → is_mutation g s ≡ false
        → found (g.query_hash s.query s.operation_name) (g.variables_hash s.variables) c ≡ some x
        → x.bytes ≡ bytes_of g (schema_execute g s w).0

  invalidate-enabled : (c : QueryCache g) → (invalidate g c).enabled ≡ c.enabled
  unfolding invalidate
  invalidate-enabled c = if_keeps (λ (d : QueryCache g). d.enabled ≡ c.enabled) c.enabled refl refl

  pub invalidate-Sound : (w : g.World) (c : QueryCache g) → Sound w (invalidate g c)
  invalidate-Sound w c = record {
    answers = λ s x on m h.
        let emptied =
          found-invalidate (g.query_hash s.query s.operation_name) (g.variables_hash s.variables) c
            (sym (invalidate-enabled c) ∙ on) in
        cc;
  }

  pub clear-Sound : (w : g.World) (c : QueryCache g) → Sound w c → Sound w (clear g c)
  unfolding clear results_of Table.get
  clear-Sound w c k = if_keeps (Sound w) c.enabled (record { answers = λ s x on m h. cc }) k

  pub lookup-found :
      (r : Request g) (now : ℕ) (c : QueryCache g) (x : CachedResponse g)
      → lookup g r now c ≡ some x
      → found (g.query_hash r.query r.operation_name) (g.variables_hash r.variables) c ≡ some x
  unfolding lookup
  lookup-found r now c x h = fresh_in-found {g = g} now _ x h

  pub bytes_of-some : (x : g.Response) (b : g.Bytes) → g.to_vec x ≡ some b → bytes_of g x ≡ b
  unfolding bytes_of
  bytes_of-some x b e = rw (e, bytes_of) refl

  module _ (k : Cacheable) where
    pub store-Sound :
        (r : Request g) (now : ℕ) (w : g.World) (c : QueryCache g)
        → is_mutation g r ≡ false
        → Sound w c
        → Sound w (store g r (bytes_of g (schema_execute g r w).0) now c)
    unfolding store
    store-Sound r now w c m s = record {
      answers = λ t x on n h.
          elim (found-store _ _ x r (bytes_of g (schema_execute g r w).0) now c h) [
            | inl (e, e', e'') ↦ e'' ∙ k.same_hashes r t w m n e e'
            | inr e ↦ s.answers t x on n e
          ];
    }

    pub store_bytes-Sound :
        (r : Request g) (now : ℕ) (w : g.World) (c : QueryCache g)
        → is_mutation g r ≡ false
        → Sound w c
        → Sound w (store_bytes g r (g.to_vec (schema_execute g r w).0) now c)
    unfolding store_bytes
    store_bytes-Sound r now w c m s = elim (Option-cases (g.to_vec (schema_execute g r w).0)) [
      | inl e ↦ rw e s
      | inr (b, e) ↦ rw (e, sym (bytes_of-some _ b e)) (store-Sound r now w c m s)
    ]
