-- ===== src/Marketplace.antt =====
-- The marketplaces: frontend/src/features/marketplace/utils.
mod Tests
pub mod Grouping
