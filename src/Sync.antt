-- ===== src/Sync.antt =====
-- The synchronisation with the ERP as the pages see it: frontend/src/services/product-sales.ts and
-- sync-batches.ts, and sync-central-state.ts of
-- frontend/src/app/(authenticated)/admin/integrations/bling.
mod Tests
pub mod ProductSales
pub mod Batches
pub mod Json
pub mod Central
