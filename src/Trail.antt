-- ===== src/Trail.antt =====
-- internal/service/admin_trail.go: the view of the admin trail, and what its cap keeps.
pub mod Listing
pub mod Views
pub mod Order
pub mod Cap
