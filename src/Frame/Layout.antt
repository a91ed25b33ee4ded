-- ===== src/Frame/Layout.antt =====
-- The layout of a frame by recursion over the scopes, with no stack: what the loop computes.
use microjit.Prelude.{ℕ, ◌+◌}
use microjit.Ir.{declare_variable}
use microjit.Ir.Snapshot.{Snapshot, done, leaf, enter}
use microjit.Frame.{StackFrameInfo, aligned_size, declare}

-- A scope starts at the size that the scope around it has reached, which goes on from there.
unfoldable pub layout : Snapshot → ℕ → ℕ → StackFrameInfo → StackFrameInfo
layout done s c report = report
layout (leaf (declare_variable v) rest) s c report =
    let s' = s + aligned_size s v.type_of in layout rest s' (c + 1) (declare v s' (c + 1) report)
layout (leaf _ rest) s c report = layout rest s c report
layout (enter _ child rest) s c report = layout rest s c (layout child s c report)
