-- ===== src/Catalog.antt =====
-- src/llmbroker/broker/catalog.py: the catalog, which keeps the pool's membership in step with the
-- registry, finds the models that the host declared, and reports what has no key.
pub mod Overlay
pub mod Seeding
pub mod Reports
pub mod Measure
pub mod Membership
