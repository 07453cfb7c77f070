-- ===== src/Exec/Starts.antt =====
-- What `ExecCode` runs on the functions that `NewVM` made.
use sea_pkg.Base.{ℕ, List, [], Option}
use sea_pkg.Base.Outcome.{ok}
use sea_pkg.Wasm.{FunctionSig}
use sea_pkg.Exec.Loop.{CompiledFunction, Function}
use sea_pkg.Exec.Start.{VmResult}

abbrev funcs_of : VmResult (List Function) → List Function
funcs_of (ok funcs) = funcs
funcs_of _ = []

abbrev total_of : VmResult CompiledFunction → ℕ
total_of (ok cf) = cf.total_local_vars
total_of _ = 0
