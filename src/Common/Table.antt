-- ===== src/Common/Table.antt =====
-- `HashMap` and `DashMap` as an association list. A write to a new key goes to the end; the program
-- relies on no order of iteration.
mod Defs
mod Laws
unfoldable pub use Defs.{get, insert, remove, update}
pub use Defs.{Table, has, keys, values}
pub use Laws.*
