-- ===== src/Navigation.antt =====
-- The navigation of the backend (src/backend/src/navigation).
pub mod Clock
pub mod Polyline
