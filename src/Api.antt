-- ===== src/Api.antt =====
-- The package api: the transport of the Steam Web API and the services over it (api/api.go,
-- api/transports, api/services).
pub mod Params
pub mod Transport
pub mod Http
pub mod Services
pub mod Lazy
pub mod Wiring
