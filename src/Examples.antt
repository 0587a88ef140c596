-- ===== src/Examples.antt =====
-- Concrete inputs of the program, and what the theorems say of them.
mod Streams
mod Stores
mod Samples
mod Pools
mod Calls
mod Journal
mod Lists
mod Races
mod Catalogs
