-- ===== src/Common.antt =====
-- The names that the other modules share: the libraries', passed on, and those of the children.
mod Tests
mod Lists
mod Results
pub mod Exec
pub mod Text
pub mod OrderedMap
pub use Tests.*
pub use Lists.*
pub use Results.*
