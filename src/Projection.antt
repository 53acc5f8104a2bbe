-- ===== src/Projection.antt =====
-- Projections of eventcore: projectors, the configuration of a run, the state machine of
-- projection_pipeline.rs, and the loop of projection.rs that carries out its effects.
pub mod Projector
pub mod Config
pub mod Pipeline
pub mod Shell
pub mod Reference
pub mod Loop
pub mod Events
pub mod Refinement
