-- ===== src/Gateway.antt =====
-- types/query.pb.gw.go: the reverse proxy that answers the module's queries over HTTP.
pub mod Runtime
pub mod Requests
pub mod Routes
pub mod Endpoint
pub mod Laws
pub mod Served
