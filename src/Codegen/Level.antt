-- ===== src/Codegen/Level.antt =====
-- What the emitters of src/microjit/jit_x86_64.cpp do to the stack pointer: the straight code leaves
-- it where it was, and the code of scopes jumps only where nothing is on the stack.
pub mod Copies
pub mod Expressions
pub mod Calls
pub mod Instructions
pub mod Scopes
pub mod Rounds
