-- ===== src/Prelude/Table.antt =====
-- A database table as the list of its rows, in the order of insertion.
mod Query
mod Rows
mod Sorted
mod Unique
unfoldable pub use Query.{select, count_where, update_where, find, any, take, insert_by, order_by}
pub use Rows.*
pub use Sorted.*
pub use Unique.*
