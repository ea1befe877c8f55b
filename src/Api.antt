-- ===== src/Api.antt =====
-- The client of the OpenCage service (ocgeo_api.c, ocgeo_api.h).
pub mod Types
pub mod Url
pub mod Reply
pub mod Path
pub mod Request
pub mod Memory
mod Tests
