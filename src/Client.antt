-- ===== src/Client.antt =====
-- pkg/client: the requests to the K8sGPT server and its address.
pub mod Requests
pub mod Laws
