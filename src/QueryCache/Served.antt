-- ===== src/QueryCache/Served.antt =====
-- Each way to serve a request, against the schema alone.
use puff.Common.{
  ℕ, ◌≡◌, refl, sym, ap, ◌∙◌, Bool, true, false, none, some, List, [], ◌∷◌, if_keeps, if_cases,
  Option-cases, inl, inr, not, nat_eq,
}
use puff.Common.Table
use puff.Common.Table.{Table, get-insert}
use puff.QueryCache.{
  Graphql, Request, CachedResponse, QueryCache, new, execute, execute_to_bytes, schema_execute,
  is_mutation, invalidate, miss, miss_to_bytes, lookup, read_back, bytes_of, results_of,
}
use puff.QueryCache.Calls.{
  Call, request, request_bytes, invalidates, clears, perform, perform_all, direct, direct_all,
}
use puff.QueryCache.Freshness.{
  Cacheable, Sound, lookup-found, invalidate-Sound, clear-Sound, store-Sound, store_bytes-Sound,
}

not-false : (b : Bool) → not b ≡ false → b ≡ true
not-false true h = refl
not-false false h = cc

module _ (g : Graphql) (k : Cacheable g) where
  -- What serving a request through the cache gives: the body and the data that the schema gives.
  record Serves (r : Request g) (w : g.World) (body : g.Bytes) (w' : g.World) (c : QueryCache g)
      : Type 0 where
    body_is : body ≡ bytes_of g (schema_execute g r w).0
    data_is : w' ≡ (schema_execute g r w).1
    sound : Sound g w' c

  miss-Serves :
      (r : Request g) (now : ℕ) (w : g.World) (c : QueryCache g)
      → is_mutation g r ≡ false
      → Sound g w c
      → Serves r w (bytes_of g (miss g r now w c).0) (miss g r now w c).1 (miss g r now w c).2
  unfolding miss
  miss-Serves r now w c m s = record {
    body_is = refl;
    data_is = refl;
    sound = rw (k.reads r w m) (
        if_keeps (Sound g w) (g.errors_empty (schema_execute g r w).0)
          (store_bytes-Sound g k r now w c m s) s);
  }

  miss_to_bytes-Serves :
      (r : Request g) (now : ℕ) (w : g.World) (c : QueryCache g)
      → is_mutation g r ≡ false
      → Sound g w c
      → Serves r w
          (miss_to_bytes g r now w c).0.0
          (miss_to_bytes g r now w c).1
          (miss_to_bytes g r now w c).2
  unfolding miss_to_bytes
  miss_to_bytes-Serves r now w c m s = record {
    body_is = refl;
    data_is = refl;
    sound = rw (k.reads r w m) (
        if_keeps (Sound g w) (g.errors_empty (schema_execute g r w).0)
          (store-Sound g k r now w c m s) s);
  }

  hit-Serves :
      (r : Request g) (now : ℕ) (w : g.World) (c : QueryCache g) (x : CachedResponse g)
      → c.enabled ≡ true
      → is_mutation g r ≡ false
      → Sound g w c
      → lookup g r now c ≡ some x
      → Serves r w x.bytes w c
  hit-Serves r now w c x on m s e = record {
    body_is = s.answers r x on m (lookup-found g r now c x e);
    data_is = sym (k.reads r w m);
    sound = s;
  }

  -- A cached response that cannot be read back is a miss.
  read_back-Serves :
      (r : Request g) (now at : ℕ) (w : g.World) (c : QueryCache g) (x : CachedResponse g)
      → c.enabled ≡ true
      → is_mutation g r ≡ false
      → Sound g w c
      → lookup g r now c ≡ some x
      → let t = elim (g.from_slice x.bytes) as (λ o. g.Response × g.World × QueryCache g) [
        | none ↦ miss g r at w c
        | some response ↦ (response, w, c)
      ] in
        Serves r w (bytes_of g t.0) t.1 t.2
  read_back-Serves r now at w c x on m s e =
      let hit = hit-Serves r now w c x on m s e in
      elim (Option-cases (g.from_slice x.bytes)) [
        | inl f ↦ rw f (miss-Serves r at w c m s)
        | inr (y, f) ↦ rw f (record {
          body_is = k.rewrites (schema_execute g r w).0 y (ap g.from_slice (sym hit.body_is) ∙ f);
          data_is = hit.data_is;
          sound = s;
        })
      ]

  off-Serves :
      (r : Request g) (w : g.World) (c : QueryCache g)
      → not c.enabled ≡ true
      → Serves r w (bytes_of g (schema_execute g r w).0) (schema_execute g r w).1 c
  off-Serves r w c off = record {
    body_is = refl;
    data_is = refl;
    sound = record { answers = λ s x on m h. cc };
  }

  mutation-Serves :
      (r : Request g) (w : g.World) (c : QueryCache g)
      → Serves r w (bytes_of g (schema_execute g r w).0) (schema_execute g r w).1 (invalidate g c)
  mutation-Serves r w c = record {
    body_is = refl;
    data_is = refl;
    sound = invalidate-Sound g (schema_execute g r w).1 c;
  }

  execute-Serves :
      (r : Request g) (now at : ℕ) (w : g.World) (c : QueryCache g)
      → Sound g w c
      → Serves r w
          (bytes_of g (execute g r now at w c).0)
          (execute g r now at w c).1
          (execute g r now at w c).2
  unfolding execute
  execute-Serves r now at w c s =
      if_cases (λ (t : g.Response × g.World × QueryCache g). Serves r w (bytes_of g t.0) t.1 t.2)
        (not c.enabled) (off-Serves r w c)
        (λ on.
          if_cases
            (λ (t : g.Response × g.World × QueryCache g). Serves r w (bytes_of g t.0) t.1 t.2)
            (is_mutation g r) (λ m. mutation-Serves r w c)
            (λ m. elim (Option-cases (lookup g r now c)) [
              | inl e ↦ rw (e, read_back) (miss-Serves r at w c m s)
              | inr (x, e) ↦
                  rw (e, read_back) (read_back-Serves r now at w c x (not-false c.enabled on) m s e)
            ]))

  execute_to_bytes-Serves :
      (r : Request g) (now at : ℕ) (w : g.World) (c : QueryCache g)
      → Sound g w c
      → Serves r w
          (execute_to_bytes g r now at w c).0.0
          (execute_to_bytes g r now at w c).1
          (execute_to_bytes g r now at w c).2
  unfolding execute_to_bytes
  execute_to_bytes-Serves r now at w c s =
      if_cases (λ (t : (g.Bytes × g.Headers) × g.World × QueryCache g). Serves r w t.0.0 t.1 t.2)
        (not c.enabled) (off-Serves r w c)
        (λ on.
          if_cases
            (λ (t : (g.Bytes × g.Headers) × g.World × QueryCache g). Serves r w t.0.0 t.1 t.2)
            (is_mutation g r) (λ m. mutation-Serves r w c)
            (λ m. elim (Option-cases (lookup g r now c)) [
              | inl e ↦ rw e (miss_to_bytes-Serves r at w c m s)
              | inr (x, e) ↦ rw e (hit-Serves r now w c x (not-false c.enabled on) m s e)
            ]))

  -- One call: the bodies and the data are those of a server without a cache.
  perform-direct :
      (a : Call g) (w : g.World) (c : QueryCache g)
      → Sound g w c
      → (((perform g a w c).0, (perform g a w c).1) ≡ direct g a w)
        × Sound g (perform g a w c).1 (perform g a w c).2
  unfolding perform direct
  perform-direct (request r now at) w c s =
      let t = execute-Serves r now at w c s in (rw (t.body_is, t.data_is) refl, t.sound)
  perform-direct (request_bytes r now at) w c s =
      let t = execute_to_bytes-Serves r now at w c s in (rw (t.body_is, t.data_is) refl, t.sound)
  perform-direct invalidates w c s = (refl, invalidate-Sound g w c)
  perform-direct clears w c s = (refl, clear-Sound g w c s)

  perform_all-direct :
      (calls : List (Call g)) (w : g.World) (c : QueryCache g)
      → Sound g w c
      → ((perform_all g calls w c).0, (perform_all g calls w c).1) ≡ direct_all g calls w
  unfolding perform_all direct_all
  perform_all-direct [] w c s = refl
  perform_all-direct (a ∷ calls) w c s =
      let (one, s') = perform-direct a w c s in
      let rest = perform_all-direct calls (perform g a w c).1 (perform g a w c).2 s' in
      rw
        (
          ap (λ (t : List (List g.Bytes) × g.World). t.0) rest,
          ap (λ (t : List (List g.Bytes) × g.World). t.1) rest,
          ap (λ (t : List g.Bytes × g.World). t.0) one,
          ap (λ (t : List g.Bytes × g.World). t.1) one,
        )
        refl

  -- Where queries leave the data as it is, the same hashes mean the same answer, and a response that is
  -- read back is written as before, clients of a new cache get for each call the body that a server
  -- without a cache gives, and the data ends the same.
  pub cache_is_transparent :
      (n : ℕ) (calls : List (Call g)) (w : g.World)
      → ((perform_all g calls w (new g n)).0, (perform_all g calls w (new g n)).1)
        ≡ direct_all g calls w
  unfolding new results_of Table.get
  cache_is_transparent n calls w =
      perform_all-direct calls w (new g n) (record { answers = λ s x on m h. cc })
