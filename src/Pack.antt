-- ===== src/Pack.antt =====
-- The schema half of the ORM: a model's struct tags, and the table they describe.
pub mod Snake
pub mod Errors
pub mod Tags
pub mod Types
pub mod Walk
pub mod Schema
mod Tests
