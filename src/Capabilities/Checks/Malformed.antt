-- ===== src/Capabilities/Checks/Malformed.antt =====
-- What an entry that is not a string does to an allowlist: it is read as the empty text.
use mathlib.Core.List.{Memᴰ}
use puff.Common.{
  ◌≡◌, ◌⊎◌, inl, inr, refl, sym, Bool, true, Option, [], ◌∷◌, Text, codes, any, any_iff, ok,
  text_beq,
}
use puff.Common.Json.{Json, Items, array, object, nil, cons, string, field, end, as_str}
use puff.Common.Strings.{has_part, starts_with}
use puff.Capabilities.Types.{HttpCapability, FsCapability, AgentCapabilities}
use puff.Capabilities.Serde.{fs_from_json, http_from_json, texts, text_of}
use puff.Capabilities.Paths.{components}
use puff.Capabilities.Checks.{check_filesystem, check_http}
use puff.Capabilities.Checks.Laws.{check_filesystem_iff}

-- Some entry of the array is no string.
abbrev pub IsMalformed : Items → Type 0
IsMalformed nil = ⊥
IsMalformed (cons v vs) = (as_str v ≡ Option.none) ⊎ IsMalformed vs

text_of_malformed : (v : Json) → as_str v ≡ Option.none → text_of v ≡ []
unfolding text_of as_str
text_of_malformed (string s) h = cc
text_of_malformed _ h = refl

empty_entry : (items : Items) → IsMalformed items → Memᴰ [] (texts items)
unfolding texts
empty_entry nil h = absurd h
empty_entry (cons v vs) (inl h) = Memᴰ.head (sym (text_of_malformed v h))
empty_entry (cons v vs) (inr h) = Memᴰ.tail (empty_entry vs h)

has_part_empty : (s : Text) → has_part [] s ≡ true
unfolding has_part starts_with
has_part_empty [] = refl
has_part_empty (c ∷ s) = refl

-- An HTTP allowlist with an entry that is not a string is read without an error, and the capability read
-- allows every URL.
pub malformed_http_allows_all :
    {F64 : Type 0} (items : Items)
    → IsMalformed items
    → (http : HttpCapability) × (http_from_json (array items) ≡ ok http)
      × ((caps : AgentCapabilities F64) (url : Text)
          → check_http (record caps { http = http }) url ≡ ok tt)
unfolding http_from_json check_http
malformed_http_allows_all items h = (
  HttpCapability.allowlist (texts items),
  refl,
  λ caps url.
      let found : any (λ p. has_part p url) (texts items) ≡ true =
        (any_iff (λ p. has_part p url) (texts items)).1
          ([], empty_entry items h, has_part_empty url) in
      rw found refl,
)

-- A list of writable directories with an entry that is not a string is read, and lets every path be
-- read and written.
pub malformed_fs_allows_all :
    {F64 : Type 0} (items : Items) (caps : AgentCapabilities F64) (path : Text) (write : Bool)
    → IsMalformed items
    → fs_from_json (object (field (codes "read_write") (array items) end)) ≡ ok caps.filesystem
    → check_filesystem caps path write ≡ ok tt
unfolding fs_from_json text_beq components
malformed_fs_allows_all items caps path write h e =
    let listed : caps.filesystem ≡ FsCapability.read_write (texts items) = cc in
    (check_filesystem_iff caps path write).1
      (rw listed ([], empty_entry items h, (components path, refl)))
