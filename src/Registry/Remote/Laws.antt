-- ===== src/Registry/Remote/Laws.antt =====
-- What the queues rely on of Redis, as its manual says: lists with LPUSH, RPOPLPUSH and LREM.
use puff.Common.{
  ℕ, ◌≡◌, ◌≢◌, Option, none, some, List, [], ◌∷◌, ◌++◌, Text, Result, ok, err, ◌==◌, text_eq,
  if◌then◌else◌,
}
use puff.Registry.Remote.{Backend}

-- LREM with a count of 1.
unfoldable pub remove_first : Text → List Text → List Text
remove_first v [] = []
remove_first v (x ∷ xs) = let rest = remove_first v xs in if x == v then xs else x ∷ rest

module _ {Store : Type 0} (items : Text → Store → List Text) where
  abbrev pub Kept : Store → Store → Type 0
  Kept s s' = (j : Text) → items j s' ≡ items j s

  abbrev pub Pushed : Text → Text → Store → Store → Type 0
  Pushed k v s s' = (items k s' ≡ v ∷ items k s) × ((j : Text) → j ≢ k → items j s' ≡ items j s)

  abbrev pub Removed : Text → Text → Store → Store → Type 0
  Removed k v s s' =
      (items k s' ≡ remove_first v (items k s)) × ((j : Text) → j ≢ k → items j s' ≡ items j s)

  -- The last element of one list becomes the first of the other.
  pub record Moved (from to : Text) (xs : List Text) (x : Text) (s s' : Store) : Type 0 where
    pub was : items from s ≡ xs ++ x ∷ []
    pub left : items from s' ≡ xs
    pub came : items to s' ≡ x ∷ items to s
    pub others : (j : Text) → j ≢ from → j ≢ to → items j s' ≡ items j s

  -- What a command has done, by its answer; when there is an error it may have been done or not.
  pub data Push (k v : Text) (s s' : Store) : Result Text (Unit {0}) → Type 0 where
    pushed : Pushed k v s s' → Push k v s s' (ok tt)
    push_unheard : (e : Text) → Pushed k v s s' → Push k v s s' (err e)
    push_failed : (e : Text) → Kept s s' → Push k v s s' (err e)

  pub data Move (from to : Text) (s s' : Store) : Result Text (Option Text) → Type 0 where
    moved : (xs : List Text) (x : Text) → Moved from to xs x s s' → Move from to s s' (ok (some x))
    nothing : items from s ≡ [] → Kept s s' → Move from to s s' (ok none)
    move_unheard :
        (e : Text) (xs : List Text) (x : Text) → Moved from to xs x s s' → Move from to s s' (err e)
    move_failed : (e : Text) → Kept s s' → Move from to s s' (err e)

  pub data Remove (k v : Text) (s s' : Store) : Result Text (Unit {0}) → Type 0 where
    removed : Removed k v s s' → Remove k v s s' (ok tt)
    remove_unheard : (e : Text) → Removed k v s s' → Remove k v s s' (err e)
    remove_failed : (e : Text) → Kept s s' → Remove k v s s' (err e)

pub record Laws (b : Backend) : Type 0 where
  -- The list at a key, which is empty where there is none.
  pub items : Text → b.Store → List Text
  pub lpush_pushes :
      (k v : Text) (s : b.Store) → Push items k v s (b.lpush k v s).0 (b.lpush k v s).1
  pub rpoplpush_moves :
      (from to : Text) (s : b.Store)
      → from ≢ to
      → Move items from to s (b.rpoplpush from to s).0 (b.rpoplpush from to s).1
  pub brpoplpush_moves :
      (from to : Text) (seconds : ℕ) (s : b.Store)
      → from ≢ to
      → Move items from to s (b.brpoplpush from to seconds s).0 (b.brpoplpush from to seconds s).1
  pub lrem_removes :
      (k v : Text) (s : b.Store) → Remove items k v s (b.lrem k 1 v s).0 (b.lrem k 1 v s).1
  -- A string is written at a key that is no list's.
  pub set_keeps : (k v j : Text) (s : b.Store) → j ≢ k → items j (b.set k v s).0 ≡ items j s
  pub set_ex_keeps :
      (k v : Text) (ttl : ℕ) (j : Text) (s : b.Store)
      → j ≢ k
      → items j (b.set_ex k v ttl s).0 ≡ items j s
