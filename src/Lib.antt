-- ===== src/Lib.antt =====
-- sea-pkg: the WebAssembly packages (`wagon`): LEB128 integers, the table of operators, validation
-- of function bodies, the compiler and the interpreter; of `crypto` the SM3 hash and the Merkle
-- root of SHA-256 hashes; of `util` the conversions of bytes, the arithmetic of 64-bit and 256-bit
-- words, and the stack, the pool and the memory of a virtual machine; of `chaindb` the database in
-- memory and the queue.
--
-- The parts and how they interact. `wagon/wasm` decodes a module, reading its integers with
-- `wagon/wasm/leb128`. `wagon/validate` checks the bytecode of every function on a machine of
-- types; it reads immediates with `leb128` and finds the types of an operator in the table of
-- `wagon/wasm/operators`. `wagon/disasm` disassembles the code of a function, with the blocks and
-- the stack that each instruction unwinds, and `wagon/exec/internal/compile` translates the
-- disassembly: structured control flow becomes jumps, and immediates get a fixed width.
-- `wagon/exec` runs the code it writes: its loop dispatches on the opcode, by a table of its own,
-- to the operators, and calls functions recursively. The other packages stand by themselves, but
-- for `util/math`, which pads with `util/conv`, and the pool of integers, which is a stack.
--
-- What models which part:
--   Leb128       wagon/wasm/leb128/read.go and write.go, with a definition for each function
--                (`ReadVarUint32Size` is `read_var_uint32_size`) and one for its loop.
--   Operators    wagon/wasm/operators: the registrations of each file (`num.go` is `num_ops`) and
--                `New`.
--   Wasm         the types of wagon/wasm/types.go, section.go and module.go that the others read: value
--                types as bit patterns of an `int8`, signatures, function bodies, segments, the index
--                spaces.
--   Wasm.Init    wagon/wasm/init_expr.go, the initializer expressions.
--   Wasm.Spaces  wagon/wasm/index.go: how the index spaces are filled and read.
--   Validate     wagon/validate/vm.go and error.go: `mockVM` is the record `MockVm`, and a method is
--                an action on it.
--   Validate.Body  wagon/validate/validate.go: `verifyBody` is `verify_body`, with a definition for
--                each longer case of its `switch`, and `VerifyModule` is `verify_module`.
--   Exec         wagon/exec/vm.go: the state of `VM` and `context` is the record `Vm`, and the
--                helpers that fetch, pop and push are actions on it.
--   Exec.I32, Exec.I64  wagon/exec/num.go, the integer operators.
--   Exec.Variables  wagon/exec/var.go, const.go, parametric.go, control.go, reinterp.go, and the
--                operators of conv.go on integers alone.
--   Exec.Floats, Exec.Floats.Convert  the float operators of wagon/exec/num.go and conv.go; the
--                arithmetic itself is the record `Floats`, a parameter.
--   Exec.Linear  wagon/exec/memory.go.
--   Exec.Table   wagon/exec/func_table.go, the rows of all operators above; the two rows of the
--                calls are cases of `table_op` in Exec.Loop.
--   Exec.Start   `NewVM` and `ExecCode` of wagon/exec/vm.go: `ExecCode` is `exec_code_at`.
--   Exec.Process `Process` of wagon/exec/vm.go.
--   Exec.Loop    `execCode` of wagon/exec/vm.go, wagon/exec/func.go and call.go.
--   Disasm, Disasm.Effects, Disasm.Cases, Disasm.Body  wagon/disasm/disasm.go and
--                wagon/internal/stack/stack.go: the local variables of `Disassemble` are the record
--                `State`, with a definition for each longer case of its `switch`.
--   Compile, Compile.Body  wagon/exec/internal/compile/compile.go, with a definition for each case of
--                the `switch`, and `BranchTable` of wagon/sea/compile.go.
--   Sm3          crypto/sm3/sm3.go: the record `Sm3` is the state of the hash.
--   Sha2         crypto/sha2/sha256.go; the channel of hashers is the number of hashers in it, or
--                `none` where it was never made.
--   Conv         util/conv/bytes.go: integers as bytes, padding and windows of data.
--   Math         util/math/integer.go and big.go. A `big.Int` is a natural number, an integer where it
--                may be negative, or the list of its words.
--   Db           chaindb/memorydb/memorydb.go, with the map as a list of entries, and
--                chaindb/queue/queue.go.
--   Stack        util/stack/stack.go and util/intpool/intpool.go, with the values of the integers as
--                elements.
--   Memory       util/memory/memory.go, with the capacity of its slice.
-- The modules below these hold proofs and are named for what they prove; Base holds the shared
-- helpers: lists over the native numbers, Boolean tests, bits, bytes, machine words, and the type
-- `Outcome` of a value, an error or a Go panic.
--
-- How Go is modelled. An integer of w bits is its bit pattern, a number below 2^w, and the
-- wrap-around of each operation is written out (Base.Words). A slice is a list; an index out of
-- range, a slice out of bounds, a division by zero and the like are the value `panic`, so that
-- their absence can be stated. Stateful code is an action from the state to an outcome with the new
-- state. `int` has 64 bits.
--
-- Fuel. The loops of `verifyBody` and `Disassemble` have a round for each byte and one more, and
-- are proved to need no more; so have those of `readInitExpr` and `ExecInitExpr`. The writers of
-- LEB128 have ten rounds, as many as a 64-bit value has groups of seven bits, and the unsigned one
-- is proved to need no more on 32 bits. The loop of `execCode` need not end, as a WebAssembly
-- program need not; its fuel counts rounds and calls, and running out is an outcome of its own,
-- apart from every Go value. The padding of SM3 has 64 rounds, one for each byte of a block,
-- and `nextPowerOfTwo` 64, one for each bit; both are proved to be enough, the second for numbers up
-- to 2^63. The levels of `Merkle` have 65, one more than a number of leaves has bits. The loop over the
-- blocks of SM3 has as many rounds as the message has whole blocks.
--
-- Not modelled: float arithmetic, a parameter of the operators (`Floats`) and so of the loop
-- (`Env.floats`); host functions, which Go calls by reflection, actions of the environment; the
-- decoding of sections; log lines and the texts of errors. The order in which Go ranges over a
-- map, SHA-256, RIPEMD-160 and the decoder of hexadecimals are parameters, and so are the bytes
-- that `append` allocates behind the length of a memory. A function of a module is one with a
-- body. The other packages are not modelled.
pub mod Base
pub mod Leb128
pub mod Wasm
pub mod Operators
pub mod Validate
pub mod Exec
pub mod Disasm
pub mod Compile
pub mod Sm3
pub mod Sha2
pub mod Conv
pub mod Math
pub mod Db
pub mod Stack
pub mod Memory
