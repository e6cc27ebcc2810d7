-- ===== src/Common/Json.antt =====
-- The values of `serde_json::Value`, as far as the program matches on them. A number is kept as its
-- literal; an object is the list of its entries.
use mathlib.Core.Bool.{Bool}
use mathlib.Core.Option.{Option, none, some}
use puff.Common.Equality.{Text, ◌==◌, text_eq}
use puff.Common.Tests.{if◌then◌else◌}

mutual
  pub data Json : Type 0 where
    null : Json
    bool : Bool → Json
    number : Text → Json
    string : Text → Json
    array : Items → Json
    object : Fields → Json

  pub data Items : Type 0 where
    nil : Items
    cons : Json → Items → Items

  pub data Fields : Type 0 where
    end : Fields
    field : Text → Json → Fields → Fields

-- `as_str`
unfoldable pub as_str : Json → Option Text
as_str (string s) = some s
as_str _ = none

-- `map.get(key)`
unfoldable pub find : Text → Fields → Option Json
find k end = none
find k (field j v fs) = if j == k then some v else find k fs

-- `value.get(key)`
unfoldable pub get : Json → Text → Option Json
unfolding find
get (object fs) k = find k fs
get _ k = none
