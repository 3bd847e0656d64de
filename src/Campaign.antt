-- ===== src/Campaign.antt =====
-- Provider-wide synchronization campaigns (src/apps/sync/services/campaign_service.py and
-- campaign_state.py).
pub mod Model
pub mod State
pub mod Control
pub mod Items
pub mod Fetch
pub mod Discovery
pub mod Stages
pub mod Run
mod Tests
pub mod Create
