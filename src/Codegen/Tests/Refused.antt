-- ===== src/Codegen/Tests/Refused.antt =====
-- A loop in a scope of its own.
use microjit.Prelude.{arith}
use microjit.Ir.{scope_create, branch}
use microjit.Ir.Snapshot.{done, enter, scope_count}
use microjit.Codegen.Compile.{compile_internal}
use microjit.Codegen.Registration.{IsUnregistered}
use microjit.Codegen.Unregistered.{Throws, compile_internal-Throws}
use microjit.Codegen.Tests.{loop, body, frame, func}

compile_internal-Throws_example : Throws (
    compile_internal 8
      (λ trampoline. 500)
      frame
      func
      (enter (scope_create 1) (enter (branch loop) body done) done))
unfolding scope_count IsUnregistered
compile_internal-Throws_example =
    compile_internal-Throws 8 (λ trampoline. 500) frame func 1 loop body done done (omega arith) tt
