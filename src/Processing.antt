-- ===== src/Processing.antt =====
-- internal/processing: the processors that change an event, and the context that they share.
pub mod Context
pub mod EnumLookup
pub mod EnumRemoval
pub mod EnumAddition
pub mod ArrayAddition
pub mod ObservableRemoval
pub mod ClassObservables
pub mod RemovalProcessors
pub mod ObservableAddition
pub mod Pipeline
