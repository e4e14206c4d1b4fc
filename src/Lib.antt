-- ===== src/Lib.antt =====
-- A model of the OCSF toolkit, the Go library that adds enrichment to OCSF events, removes it again
-- and validates events against a compiled schema, with proofs about its parts.
--
-- How the parts interact. Event processing (internal/processing) walks an event with a path as its
-- state (internal/eventpath), reads dynamic values as OCSF types (internal/eventvalue), looks enum
-- values up in the compiled schema (internal/schema), adds or removes the caption of an enum value
-- beside it, keeps the array of observables (internal/observable), and reports issues under the codes
-- of issue/code.go, findings under those of validation/code.go.
--
-- The files and the code they model:
--   PathSeq         internal/pathseq/sequence.go: `Sequence` with push, pop, at
--   PathStyle       pathstyle/style.go: the notations, `append_array_notation`
--   EventPath       internal/eventpath/path.go: the path of a traversal and its texts
--   CodeRegistry    internal/coderegistry/registry.go: the registry that all codes share
--   IssueCode       issue/code.go, issue/source.go: the tables of issue codes and sources
--   ValidationCode  validation/code.go, validation/level.go: the tables of findings and levels
--   CodeTables      the theorems on those tables
--   EventValue      internal/eventvalue: `Value`, with Scalar (scalar.go) and Object (object.go)
--   Schema          internal/schema/schema.go, event.go: attribute definitions, active profiles;
--                   Schema/NumericEnum is numeric_enum.go, the index of integral enum values;
--                   Schema/Event is event.go: type_uid, class resolution, profile sets;
--                   Schema/Items has the classes and the objects, Schema/Types the
--                   inheritance of dictionary types, Schema/Siblings enum siblings
--   Semver          internal/semver/semver.go: `parse` and `compare`
--   ObservablePath  internal/observablepath/path.go: names of observables as paths: `parse`;
--                   Definition (`definition`, `uses_notation`), Resolution (`resolve`) and
--                   Resolution/Graph (`resolve` on cyclic events)
--   Observable      internal/observable/collection.go: deduplication, `append`, `filter_removable`
--                   Analysis is analysis.go: which entries are redundant; Discovery is
--                   discovery.go: which object definitions can generate observables
--   Processing      internal/processing: Context (the counters and issues of `processContext`, and
--                   issue_suppression.go), EnumLookup (process.go), EnumAddition and ArrayAddition
--                   (enrichment.go), EnumRemoval and ObservableRemoval
--                   (enrichment_removal.go, internal/observable/diagnostic.go), ClassObservables
--                   (class_observables.go, observable_type_selector.go),
--                   RemovalProcessors (the handlers that call the removals),
--                   ObservableAddition (the handlers that generate observables), and
--                   Pipeline (pipeline.go: the processors of a configuration)
--   Common          the names that the other files share, Tests concrete inputs
--
-- How it is modelled. A Go string is the list of its bytes, a Go map an association list whose order
-- stands for any order of iteration, and a pointer that can be nil an `Option`. A function that changes
-- `processContext` or the item takes them and returns them. A pair of a value and a flag is an
-- `Option`. A signed integer is a ℤ; a float64 is its bit pattern. What the Go standard library
-- does with numbers is the parameter `NumberLibrary`, and package strconv's `ParseInt` and `FormatInt`
-- are the parameters `parse_int` and `format_int`. Where a theorem needs a number to be read back from
-- its text, that is the hypothesis `ReadsBack`. Loops over slices and paths are structural recursion
-- on the list or on the number of rounds left; the digits of a decimal text are recursion on fuel, of
-- which a number one above the number written is enough. The loops of the parser of names have the
-- length of the text as fuel, with one round more for the segments, the resolution of a path one round
-- for each entry of its stack, a walk up the types one round for each type and two more, and the
-- propagation over object definitions one round for each of its seeds and edges. An event is a tree,
-- so the sets of seen arrays have no counterpart in ObservablePath/Resolution; they have one in
-- ObservablePath/Resolution/Graph, where slices and maps are references into a heap and can contain
-- themselves, and where a loop has one round for each value on its stack and for each element of each
-- slice of the heap.
--
-- Not modelled: the wording of messages, reading schemas and events as JSON, the command line under
-- cmd/, and the processing that is not named above: the traversal itself, validation, and the
-- checks of a pipeline's configuration.
pub mod Common
pub mod PathSeq
pub mod PathStyle
pub mod CodeRegistry
pub mod IssueCode
pub mod ValidationCode
pub mod CodeTables
pub mod EventPath
pub mod EventValue
pub mod Schema
pub mod ObservablePath
pub mod Observable
pub mod Semver
pub mod Processing
pub mod Tests
