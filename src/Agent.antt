-- ===== src/Agent.antt =====
-- src/microjit/runtime_agent.h and runtime_agent.cpp: the three handlers that keep the compiled
-- function of each host, and the part of src/microjit/orchestrator.h that uses them. A host is an
-- address. The compiler is a parameter, which answers each compilation with an error or with the
-- address of new code; what it has been asked before and what has been released is the history.
pub mod Single
pub mod Queued
pub mod Pooled
pub mod Instance
pub mod Memo
pub mod Exclusion
pub mod Stuck
pub mod Removal
mod Tests
use microjit.Prelude.{ℕ, List, [], ◌∷◌, Option, none, some, ◌==◌, if◌then◌else◌}
use microjit.Prelude.Dict

-- what has been asked of the compiler and of the runtime, the latest first
pub data Event : Type 0 where
  compiled : (host callback : ℕ) → Event
  failed : (host : ℕ) → Event
  released : (host callback : ℕ) → Event
  forgotten : (host : ℕ) → Event

-- `MicroJITCompiler::compile`: `none` is a result with `error` set.
abbrev pub Compiler : Type 0
Compiler = List Event → ℕ → Option ℕ

-- the state of `SingleUnsafeCompilationHandler` and of `CommandQueueCompilationHandler`
pub record Handler : Type 0 where
  pub function_map : List (ℕ × ℕ)
  pub history : List Event

-- The code that a host has by its history: that of its last compilation that succeeded, if it has
-- not been removed since.
unfoldable pub newest : ℕ → List Event → Option ℕ
newest host [] = none
newest host (compiled h cb ∷ rest) = if h == host then some cb else newest host rest
newest host (failed h ∷ rest) = newest host rest
newest host (released h cb ∷ rest) = if h == host then none else newest host rest
newest host (forgotten h ∷ rest) = if h == host then none else newest host rest
