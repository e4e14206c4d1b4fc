-- ===== src/Observable.antt =====
-- internal/observable: the observables of an event.
pub mod Collection
pub mod Analysis
pub mod Discovery
