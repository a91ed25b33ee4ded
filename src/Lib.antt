-- ===== src/Lib.antt =====
-- A verification of microjit, a just-in-time compiler in C++ whose functions are built by calls.
--
-- A program builds a function through `Scope` and `RectifiedScope` (src/microjit/instructions.h,
-- instructions.cpp): scopes that hold instructions. An orchestrator (orchestrator.h) hands the
-- function to a runtime agent (runtime_agent.cpp), which asks a compiler for code and keeps it by
-- the address of the function. The compiler lays out a frame (jit.cpp) and emits code
-- (jit_x86_64.cpp). A call writes its arguments into a block that the compiled code and the
-- trampolines of native functions (trampoline.h) read. Tasks of the agent run in a command queue or
-- in a pool of threads with a priority queue (priority_queue.h).
--
-- The files:
--   Prelude      lists, maps and integers over the native numbers
--   Types        `Type` of src/microjit/type.h, alignment and argument block of def.h; Types/Order is
--                the order that C++ gives to the integer types, apart from what the code says of them
--   CallLayout   where arguments are written, read and destroyed: orchestrator.h
--                (`move_argument`, `destruct_argument`, `call_internal`), jit.cpp (`args_map`),
--                trampoline.h (`pass_arg`, `call_internal`), instructions.h (`create_indexes`)
--   Ir           the instructions, values and operations of instructions.h; Ir/Snapshot is a
--                finished function as a tree of scopes
--   Frame        `MicroJITCompiler::create_frame_report` of jit.cpp
--   PriorityQueue  `PriorityQueue` of priority_queue.h
--   Raise        `MJ_RAISE` of utils.h as a result type, and rules for what a chain ensures
--   Builder      `RectifiedScope`, its parser of expressions, invocations, and `Scope`
--   RefCount     `Ref` and `ThreadUnsafeObject` of helper.h; RefCount/Atomic is `SafeRefCount` of
--                safe_refcount.h, shared by threads
--   Codegen      `MicroJITCompiler_x86_64` of jit_x86_64.h and jit_x86_64.cpp: Asm holds the calls of
--                the assembler as data, Copies, Operations, Expressions, Calls, Branches, Scopes and
--                Compile the emitters; Balance and Level follow the stack pointer, Fuel counts the
--                rounds; Machine says what the instructions on integers do, as the manual of the
--                processor describes them, Arithmetic to Conditions run the code of expressions;
--                ByteRemainder runs remainders of single bytes and Unlisted comparisons of char;
--                Places, Passing and Invocation follow rsp and r10 through a call with numbers,
--                for which Passable shows that code is emitted, Registration the branches; Progress and
--                Parsed follow the exceptions of expressions from the parser on
--   Agent        the three handlers of runtime_agent.cpp and `FunctionInstance` of orchestrator.h
--
-- State is passed on explicitly: scopes stand in a store and are told by their numbers, a handler is
-- its map with the history of what it asked of the compiler, and the pool is a list of threads whose
-- next steps, and the removals of hosts, are taken in any order. A counted object that is deleted holds
-- no `Ref` of its own. An object that a throwing method has changed before it throws is
-- taken as unchanged. Addresses and sizes are natural numbers; sums of sizes stay below 2 ^ 64, and
-- the offset of an instruction in its scope wraps at 2 ^ 32 as in the source.
--
-- Fuel: `heapify_up` gets one round more than the index, `heapify_down` one more than the length of
-- the heap; `create_frame_report` takes its rounds as an argument, and twice the number of scopes is
-- enough; `has_variable_in_all_scope` gets one round more than the number of the scope, whose parents
-- have smaller numbers; `compile_internal` takes the rounds of both its loops as an argument, and
-- twice the number of scopes is enough.
--
-- Parameters: the compiler of a handler, and the address that `get_caller` of a trampoline returns.
-- Labels are told by the numbers that `newLabel` counts. Not modelled: `Box`, `SafeFlag`, the threads,
-- the queue of commands and the locks themselves (thread_pool.h, command_queue.h, managed_thread.h,
-- lock.h), the generated tables of conversions and their generators, and asmjit, which encodes the
-- code and which the repository only calls. What the instructions on floating point numbers and on
-- signed quotients do is left open; an access of memory beyond 2 ^ 64 does not wrap.
pub mod Prelude
pub mod Types
pub mod CallLayout
pub mod Ir
pub mod Frame
pub mod PriorityQueue
pub mod Raise
pub mod Builder
pub mod Agent
pub mod Codegen
pub mod RefCount
