-- ===== src/App.antt =====
-- internal/app: the use cases, over the tables of Store.
pub mod Env
pub mod Events
pub mod Movement
pub mod Submit
pub mod Create
pub mod Reconcile
pub mod Worker
pub mod Resolver
pub mod Queries
