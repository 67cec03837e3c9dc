-- ===== src/Gateway.antt =====
-- The publication gateway, src/application/publication-gateway: its rules, its service, and the
-- histories of the repository under any requests.
pub mod Readiness
pub mod Errors
pub mod Authorization
pub mod Dto
pub mod Service
pub mod History
