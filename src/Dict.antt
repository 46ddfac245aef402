-- ===== src/Dict.antt =====
-- JavaScript's `Map` with string keys: entries in insertion order. `set` on a key that is present
-- keeps its place, `delete` removes it, and a loop over the map runs in insertion order.
mod Defs
mod Laws
mod Size
mod Values
mod Count
unfoldable pub use Defs.{Dict, get, has, set, delete, keep, dropped, keys, values}
pub use Defs.{Distinct, HasSome}
pub use Laws.*
pub use Size.*
pub use Values.*
unfoldable pub use Count.{count}
pub use Count.{count-set, count-delete}
