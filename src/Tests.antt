-- ===== src/Tests.antt =====
-- Concrete inputs of every component, and its theorems applied to them.
pub mod Samples
mod Paths
mod Tables
mod Observables
mod Enums
mod Versions
mod ObservablePaths
mod Schemas
mod Analyses
mod Generation
mod Pipelines
mod Cycles
