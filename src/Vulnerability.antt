-- ===== src/Vulnerability.antt =====
-- backend/pkg/vulnerability: the sweeps of rescanner.go over the cached images.
pub mod Rescanner
pub mod Window
pub mod Batch
