-- ===== src/Codegen.antt =====
-- src/microjit/jit_x86_64.h and jit_x86_64.cpp: `MicroJITCompiler_x86_64`, the code generator. An
-- emitter returns its code, or throws; what the assembler has been given before an exception is lost
-- with it.
pub mod Asm
pub mod Copies
pub mod Operations
pub mod Expressions
pub mod Calls
pub mod Branches
pub mod Scopes
pub mod Compile
pub mod Balance
pub mod Level
pub mod Fuel
pub mod Whole
pub mod Machine
pub mod Words
pub mod Arithmetic
pub mod Execution
pub mod Correct
pub mod Comparison
pub mod Conditions
pub mod Unlisted
pub mod ByteRemainder
pub mod Places
pub mod Passing
pub mod Passable
pub mod Immediates
pub mod Progress
pub mod Parsed
pub mod Registration
pub mod Unregistered
pub mod Invocation
mod Tests
