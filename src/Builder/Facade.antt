-- ===== src/Builder/Facade.antt =====
-- `Scope<R, Args...>` and `Function<R, Args...>` of src/microjit/instructions.h: the methods of
-- `Scope` that make the child scope themselves. All the others hand their arguments on.
use microjit.Prelude.{ℕ, List, [], none, some}
use microjit.Types.{CxxType}
use microjit.Raise.{Result, ok, ◌>>=◌}
use microjit.Builder.{Store, scope_at, make_scope}
use microjit.Builder.Parser.{ParseResult}
use microjit.Builder.Control.{create_scope, if_branch, else_branch, while_branch}

-- the constructor of `Scope`: the new scope has the arguments of the function
unfoldable pub make_child : Store → ℕ → Result (Store × ℕ)
make_child b this = do s ← scope_at b this; ok (make_scope b s.arguments (some this))

unfoldable pub create_child_scope : Store → ℕ → Result (Store × ℕ)
create_child_scope b this = do
  (made, child) ← make_child b this
  done ← create_scope made this child
  ok (done, child)

unfoldable pub if_child : Store → ℕ → ParseResult → Result (Store × ℕ)
if_child b this parsed = do
  (made, child) ← make_child b this
  done ← if_branch made this parsed child
  ok (done, child)

unfoldable pub else_child : Store → ℕ → Result (Store × ℕ)
else_child b this = do
  (made, child) ← make_child b this
  done ← else_branch made this child
  ok (done, child)

unfoldable pub while_child : Store → ℕ → ParseResult → Result (Store × ℕ)
while_child b this parsed = do
  (made, child) ← make_child b this
  done ← while_branch made this parsed child
  ok (done, child)

-- the constructor of `Function`: the main scope, with no parent
unfoldable pub make_function : Store → List CxxType → Store × ℕ
make_function b args = make_scope b args none

abbrev pub empty_store : Store
empty_store = record { scopes = []; next_address = 1000 }
