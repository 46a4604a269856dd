-- ===== src/Store.antt =====
-- The database behind internal/postgres and the calls on it. A `World` is the tables as the caller
-- sees them, the transaction that its context carries, and what the environment will do: the errors
-- of the coming database calls, and how many UUIDs and clock readings were drawn so far.
pub mod Monad
pub mod Rules
pub mod Inside
pub mod Keeps
pub mod Tables
pub mod Wallets
pub mod Entries
pub mod Wagers
pub mod Pending
pub mod Outbox
pub mod RoundTrip
pub mod Atomic
pub mod Books
pub mod Quiet
