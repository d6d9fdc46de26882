-- ===== src/Proxy/Docker.antt =====
-- backend/pkg/proxy/docker/docker.go: the registry API of Docker, over a registry's upstream.
pub mod Paths
pub mod Upstream
pub mod Requests
pub mod Token
pub mod Manifests
pub mod Pulls
pub mod Pushes
pub mod Blobs
pub mod Serve
