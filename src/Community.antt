-- ===== src/Community.antt =====
-- The community of src/apps/community: reactions and bookmarks on posts, comments, reviews,
-- collections and activities, with the counters that are kept beside them, and notifications.
pub mod Model
pub mod Targets
pub mod Interactions
pub mod Notifications
pub mod Comments
mod Tests
