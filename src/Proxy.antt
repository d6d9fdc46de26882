-- ===== src/Proxy.antt =====
-- backend/pkg/proxy: which registry a request addresses, who may use it, and what is asked upstream.
pub mod Target
pub mod Virtual
pub mod Docker
