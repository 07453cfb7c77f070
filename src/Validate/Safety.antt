-- ===== src/Validate/Safety.antt =====
-- `verifyBody` and `VerifyModule` end on every input, and panic only where the source forgets a
-- check.
use sea_pkg.Base.{ℕ, zero, suc, ◌+◌, ◌≤◌, ◌<◌, ◌≡◌, refl, ◌∙◌, List, [], ◌∷◌, arith, length}
use sea_pkg.Base.{get_elem?, Option, none, some}
use sea_pkg.Base.Outcome.{Outcome, ok, err, panic}
use sea_pkg.Wasm.{FunctionSig, FunctionBody, Function, Module}
use sea_pkg.Validate.{MockVm, Result}
use sea_pkg.Validate.Body.{
  verify_op, verify_loop, initial, verify_body, ModuleError, in_function, missing_section,
  verify_functions, verify_module,
}
use sea_pkg.Validate.Rules.{IsSound, Allowed, Follows}
use sea_pkg.Validate.Cases.{verify_op-Keeps}

-- The loop ends: with all code read, with an error, or with a panic that is allowed.
-- An error's offset is at most the length of the code.
abbrev pub Ends : Module → ℕ → Option (Result (Unit {0})) → Type 0
Ends m n none = ⊥
Ends m n (some (ok (_, vm))) = IsSound vm × (vm.code ≡ [])
Ends m n (some (err (e, offset))) = offset ≤ n
Ends m n (some (panic p)) = Allowed m p

module _ (fn : FunctionSig) (m : Module) (locals : List ℕ) where
  loop-Ends :
      (n fuel : ℕ) (code : List ℕ) (vm : MockVm)
      → length code < fuel
      → vm.code ≡ code
      → vm.orig_length ≡ n
      → IsSound vm
      → Ends m n (verify_loop fn m locals fuel code vm)
  unfolding verify_loop
  loop-Ends n zero code vm h e o s = absurd (omega arith)
  loop-Ends n (suc fuel) [] vm h e o s = (s, e)
  loop-Ends n (suc fuel) (op ∷ rest) vm h e o s =
      round (verify_op fn m locals op (record vm { code = rest }))
        ((verify_op-Keeps m fn locals op).at (record vm { code = rest })
          (record { top = s.top; bases = s.bases }) (omega arith))
        (λ vm' lt o' s'. loop-Ends n fuel vm'.code vm' lt refl o' s')
    where
      round :
          (r : Result (Unit {0}))
          → Follows m (record vm { code = rest }) r
          → ((vm' : MockVm)
              → length vm'.code < fuel
              → vm'.orig_length ≡ n
              → IsSound vm'
              → Ends m n (verify_loop fn m locals fuel vm'.code vm'))
          → Ends m n (elim r [
            | ok (_, vm') ↦ verify_loop fn m locals fuel vm'.code vm'
            | err x ↦ some (err x)
            | panic p ↦ some (panic p)
          ])
      round (ok (_, vm')) (s', shorter, _, same) more = more vm' (omega arith) (same ∙ o) s'
      round (err (x, offset)) t more = omega arith
      round (panic p) t more = t

-- The check of a function body ends on every body: its loop has read all code and leaves a sound
-- machine, or it returns an error whose offset is at most the length of the code, or it panics. It
-- never indexes its own stacks out of range: it panics only on a function with several results, on
-- the third of the two operands of `select`, and on a type index of `call_indirect` that the module
-- does not have.
pub verify_body-Ends :
    (fn : FunctionSig) (body : FunctionBody) (m : Module)
    → Ends m (length body.code) (verify_body fn body m)
unfolding verify_body initial
verify_body-Ends fn body m =
    loop-Ends fn m _ (length body.code) _ body.code (initial fn body) (omega arith) refl refl
      (record { top = omega arith; bases = tt })

-- A module's error names one of its functions and an offset in that function's code.
abbrev pub ModuleEnds :
    Module → ℕ → List Function → Option (Outcome ModuleError (Unit {0})) → Type 0
ModuleEnds m i fns none = ⊥
ModuleEnds m i fns (some (ok _)) = Unit {0}
ModuleEnds m i fns (some (err (missing_section n))) = n ≡ 10
ModuleEnds m i fns (some (err (in_function offset k e))) =
    (j : ℕ) × (fn : Function) × (k ≡ i + j)
    × (get_elem? fns j ≡ some fn)
    × (offset ≤ length fn.body.code)
ModuleEnds m i fns (some (panic p)) = Allowed m p

later :
    (m : Module) (i : ℕ) (fn : Function) (fns : List Function)
    (o : Option (Outcome ModuleError (Unit {0})))
    → ModuleEnds m (suc i) fns o
    → ModuleEnds m i (fn ∷ fns) o
later m i fn fns (some (ok _)) h = h
later m i fn fns (some (err (missing_section n))) h = h
later m i fn fns (some (err (in_function offset k e))) (j, f, at, found, le) =
    (suc j, f, omega arith, found, le)
later m i fn fns (some (panic p)) h = h
later m i fn fns none h = h

functions-ModuleEnds :
    (m : Module) (i : ℕ) (fns : List Function) → ModuleEnds m i fns (verify_functions m i fns)
unfolding verify_functions
functions-ModuleEnds m i [] = tt
functions-ModuleEnds m i (fn ∷ rest) =
    round (verify_body fn.sig fn.body m) (verify_body-Ends fn.sig fn.body m)
      (later m i fn rest (verify_functions m (suc i) rest) (functions-ModuleEnds m (suc i) rest))
  where
    round :
        (r : Option (Result (Unit {0})))
        → Ends m (length fn.body.code) r
        → ModuleEnds m i (fn ∷ rest) (verify_functions m (suc i) rest)
        → ModuleEnds m i (fn ∷ rest) (elim r [
          | none ↦ none
          | some (ok _) ↦ verify_functions m (suc i) rest
          | some (err (e, offset)) ↦ some (err (in_function offset i e))
          | some (panic p) ↦ some (panic p)
        ])
    round none h more = h
    round (some (ok _)) h more = more
    round (some (err (e, offset))) h more = (0, fn, omega arith, refl, h)
    round (some (panic p)) h more = h

-- The check of a module ends on every module. Its error is the missing code section, or names a
-- function of the module, by its index, and an offset that is at most the length of that function's
-- code. It panics only as the check of a body may.
pub verify_module-Ends : (m : Module) → ModuleEnds m 0 m.function_index_space (verify_module m)
unfolding verify_module
verify_module-Ends m = ground (arith, functions-ModuleEnds m 0 m.function_index_space)
