-- ===== src/Insights.antt =====
-- The executive insights: frontend/src/features/executive-insights.
pub mod Domain
pub mod Transitions
pub mod Stores
pub mod Lifecycle
pub mod Spec
pub mod Engine
pub mod Alerts
pub mod Queries
pub mod Narrative
pub mod Intelligence
pub mod Keys
pub mod Builders
pub mod Tests
