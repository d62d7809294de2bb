-- ===== src/Store.antt =====
-- The database that the connection, pool and wallet stores share: the rows of internal/model as
-- records, the tables as lists, and a transaction as a computation that may fail.
--
-- A column that no modelled operation reads or writes is left out. Times are numbers of nanoseconds,
-- uuids and serial ids are numbers (they are only compared), other texts are strings. `Option` is a
-- column that may be NULL. A statement fails only where a constraint of the schema makes it fail;
-- a lost connection to the database is not modelled.
pub mod Rows
pub mod Monad
unfoldable pub use Rows.*
unfoldable pub use Monad.*
