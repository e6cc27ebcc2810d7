-- ===== src/Registry/Leases/Laws.antt =====
-- What the leases rely on of Redis.
use puff.Common.{ℕ, ◌+◌, ◌≤◌, ◌<◌, ◌≡◌, ◌≢◌, true, Option, none, some, Text, ok, text_eq}
use puff.Registry.Leases.{Backend}

-- The commands do what the manual of Redis says.
pub record Laws (b : Backend) : Type 0 where
  -- The value at a key and a time, if it has not expired by then.
  pub value : Text → ℕ → b.Store → Option Text
  pub get_reads :
      (k : Text) (now : ℕ) (s : b.Store) (o : Option Text)
      → b.get_value k now s ≡ ok o
      → o ≡ value k now s
  -- SET NX sets no key that is there, and leaves it alone; what it sets lives as long as EX says.
  pub set_if_absent :
      (k v : Text) (ttl now : ℕ) (s : b.Store)
      → (b.set_nx_ex k v ttl now s).1 ≡ ok true
      → value k now s ≡ none
  pub set_lives :
      (k v : Text) (ttl now t : ℕ) (s : b.Store)
      → (b.set_nx_ex k v ttl now s).1 ≡ ok true
      → now ≤ t
      → t < now + ttl
      → value k t (b.set_nx_ex k v ttl now s).0 ≡ some v
  pub set_keeps :
      (k v : Text) (ttl now : ℕ) (s : b.Store) (j : Text) (t : ℕ) (w : Text)
      → now ≤ t
      → value j now s ≡ some w
      → value j t s ≡ some w
      → value j t (b.set_nx_ex k v ttl now s).0 ≡ some w
  -- EXPIRE lets a value that is there live as long as it says, and DEL and EXPIRE leave other keys alone.
  pub expire_lives :
      (k : Text) (ttl now t : ℕ) (s : b.Store) (w : Text)
      → value k now s ≡ some w
      → now ≤ t
      → t < now + ttl
      → value k t (b.expire k ttl now s) ≡ some w
  pub expire_keeps :
      (k : Text) (ttl now : ℕ) (s : b.Store) (j : Text) (t : ℕ)
      → j ≢ k
      → value j t (b.expire k ttl now s) ≡ value j t s
  pub del_keeps :
      (k : Text) (now : ℕ) (s : b.Store) (j : Text) (t : ℕ)
      → j ≢ k
      → value j t (b.del k now s) ≡ value j t s
