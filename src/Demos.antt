-- ===== src/Demos.antt =====
-- The demo scripts of the repository.
pub mod NornsApi
pub mod OscSurface
