-- ===== src/Agent/Instance.antt =====
-- `FunctionInstance` of src/microjit/orchestrator.h, on an orchestrator with the default settings,
-- whose agent has a `SingleUnsafeCompilationHandler`.
use microjit.Prelude.{ℕ, Bool, true, false, Option, none, some}
use microjit.Raise.{Result, ok, guard, or_raise, ◌>>=◌, ◌>>◌, undefined}
use microjit.Agent.{Compiler, Handler}
use microjit.Agent.Single

pub record FunctionInstance : Type 0 where
  pub has_parent : Bool
  pub host : ℕ
  pub real_compiled_function : Option ℕ

-- an instance that belongs to an orchestrator and has been compiled
abbrev pub attached : (host callback : ℕ) → FunctionInstance
attached host callback = record {
  has_parent = true;
  host = host;
  real_compiled_function = some callback;
}

-- `compile_internal`, by `is_compiled`; without a parent it reads through a null pointer.
unfoldable pub compile_unless :
    Compiler → FunctionInstance → Handler → Option ℕ → Result (FunctionInstance × Handler)
compile_unless compile self h (some cb) = ok (self, h)
compile_unless compile self h none = do
  guard self.has_parent undefined
  let (cb, h') = Single.get_or_create compile h self.host
  ok (record self { real_compiled_function = cb }, h')

unfoldable pub compile_internal :
    Compiler → FunctionInstance → Handler → Result (FunctionInstance × Handler)
compile_internal compile self h = compile_unless compile self h self.real_compiled_function

unfoldable pub recompile :
    Compiler → FunctionInstance → Handler → Result (FunctionInstance × Handler)
recompile compile self h =
    compile_internal compile (record self { real_compiled_function = none }) h

-- `call`, with the code that `call_internal` jumps to; a null pointer is undefined.
unfoldable pub call :
    Compiler → FunctionInstance → Handler → Result (ℕ × FunctionInstance × Handler)
call compile self h = do
  r ← compile_internal compile self h
  cb ← or_raise r.0.real_compiled_function undefined
  ok (cb, r.0, r.1)

-- `detach`; the entry of `instance_map` that it drops holds nothing else.
unfoldable pub detach : FunctionInstance → Handler → Result (FunctionInstance × Handler)
detach self h = do
  guard self.has_parent undefined
  ok (record self { has_parent = false }, (Single.remove_host h self.host).1)
