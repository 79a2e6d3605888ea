-- ===== src/Examples.antt =====
-- Concrete states and a concrete platform at which the theorems are applied.
mod Lawful
mod Runs
mod Stores
mod Accounts
mod Deletion
mod Keys
mod Hooks
mod Identity
mod Policies
