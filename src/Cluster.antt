-- ===== src/Cluster.antt =====
-- The API servers that the program talks to, as a parameter: the objects of each kind with the
-- fields that the program reads or writes, and the requests. The servers are not code of this
-- repository; `Cluster.Lawful` states the documented behaviour that some theorems rely on.
mod Objects
mod Requests
pub mod Calls
pub mod Respects
pub mod Lawful
unfoldable pub use Objects.*
unfoldable pub use Requests.*
