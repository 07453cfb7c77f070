-- ===== src/Operators.antt =====
-- wagon/wasm/operators: the table of operators, with their parameter and return types.
-- The Go package registers each operator when it is initialised; the model lists the registrations,
-- a list for each source file, in the order of the files below.
use sea_pkg.Base.{
  ℕ, List, [], ◌∷◌, ◌++◌, Bool, true, false, ◌==◌, if◌then◌else◌, Option, none, some,
}
use sea_pkg.Wasm.{i32, i64, f32, f64, block_type_empty}
use Prim.Native.String.{String}

pub record Op : Type 0 where
  pub code : ℕ
  pub name : String
  pub polymorphic : Bool
  pub args : List ℕ
  pub returns : ℕ

abbrev new_op : ℕ → String → List ℕ → ℕ → Op
new_op code name args returns = record {
  code = code;
  name = name;
  polymorphic = false;
  args = args;
  returns = returns;
}

abbrev new_polymorphic_op : ℕ → String → Op
new_polymorphic_op code name = record {
  code = code;
  name = name;
  polymorphic = true;
  args = [];
  returns = 0;
}

-- The parameter and the result are those that `newConversionOp` reads off the operator's name.
abbrev new_conversion_op : ℕ → String → ℕ → ℕ → Op
new_conversion_op code name param returns = new_op code name (param ∷ []) returns

-- operators/control.go
pub control_ops : List Op
control_ops =
    new_op 0x00 "unreachable" [] block_type_empty
    ∷ new_op 0x01 "nop" [] block_type_empty
    ∷ new_op 0x02 "block" [] block_type_empty
    ∷ new_op 0x03 "loop" [] block_type_empty
    ∷ new_op 0x04 "if" (i32 ∷ []) block_type_empty
    ∷ new_op 0x05 "else" [] block_type_empty
    ∷ new_op 0x0b "end" [] block_type_empty
    ∷ new_polymorphic_op 0x0c "br"
    ∷ new_op 0x0d "br_if" (i32 ∷ []) block_type_empty
    ∷ new_polymorphic_op 0x0e "br_table"
    ∷ new_polymorphic_op 0x0f "return"
    ∷ []

-- operators/call.go
pub call_ops : List Op
call_ops = new_polymorphic_op 0x10 "call" ∷ new_polymorphic_op 0x11 "call_indirect" ∷ []

-- operators/parametric.go
pub parametric_ops : List Op
parametric_ops = new_polymorphic_op 0x1a "drop" ∷ new_polymorphic_op 0x1b "select" ∷ []

-- operators/var.go
pub var_ops : List Op
var_ops =
    new_polymorphic_op 0x20 "get_local"
    ∷ new_polymorphic_op 0x21 "set_local"
    ∷ new_polymorphic_op 0x22 "tee_local"
    ∷ new_polymorphic_op 0x23 "get_global"
    ∷ new_polymorphic_op 0x24 "set_global"
    ∷ []

-- operators/memory.go
pub memory_ops : List Op
memory_ops =
    new_op 0x28 "i32.load" (i32 ∷ []) i32
    ∷ new_op 0x29 "i64.load" (i32 ∷ []) i64
    ∷ new_op 0x2a "f32.load" (i32 ∷ []) f32
    ∷ new_op 0x2b "f64.load" (i32 ∷ []) f64
    ∷ new_op 0x2c "i32.load8_s" (i32 ∷ []) i32
    ∷ new_op 0x2d "i32.load8_u" (i32 ∷ []) i32
    ∷ new_op 0x2e "i32.load16_s" (i32 ∷ []) i32
    ∷ new_op 0x2f "i32.load16_u" (i32 ∷ []) i32
    ∷ new_op 0x30 "i64.load8_s" (i32 ∷ []) i64
    ∷ new_op 0x31 "i64.load8_u" (i32 ∷ []) i64
    ∷ new_op 0x32 "i64.load16_s" (i32 ∷ []) i64
    ∷ new_op 0x33 "i64.load16_u" (i32 ∷ []) i64
    ∷ new_op 0x34 "i64.load32_s" (i32 ∷ []) i64
    ∷ new_op 0x35 "i64.load32_u" (i32 ∷ []) i64
    ∷ new_op 0x36 "i32.store" (i32 ∷ i32 ∷ []) block_type_empty
    ∷ new_op 0x37 "i64.store" (i64 ∷ i32 ∷ []) block_type_empty
    ∷ new_op 0x38 "f32.store" (f32 ∷ i32 ∷ []) block_type_empty
    ∷ new_op 0x39 "f64.store" (f64 ∷ i32 ∷ []) block_type_empty
    ∷ new_op 0x3a "i32.store8" (i32 ∷ i32 ∷ []) block_type_empty
    ∷ new_op 0x3b "i32.store16" (i32 ∷ i32 ∷ []) block_type_empty
    ∷ new_op 0x3c "i64.store8" (i64 ∷ i32 ∷ []) block_type_empty
    ∷ new_op 0x3d "i64.store16" (i64 ∷ i32 ∷ []) block_type_empty
    ∷ new_op 0x3e "i64.store32" (i64 ∷ i32 ∷ []) block_type_empty
    ∷ new_op 0x3f "current_memory" [] i32
    ∷ new_op 0x40 "grow_memory" (i32 ∷ []) i32
    ∷ []

-- operators/const.go
pub const_ops : List Op
const_ops =
    new_op 0x41 "i32.const" [] i32
    ∷ new_op 0x42 "i64.const" [] i64
    ∷ new_op 0x43 "f32.const" [] f32
    ∷ new_op 0x44 "f64.const" [] f64
    ∷ []

-- operators/comp.go
pub comp_ops : List Op
comp_ops =
    new_op 0x45 "i32.eqz" (i32 ∷ []) i32
    ∷ new_op 0x46 "i32.eq" (i32 ∷ i32 ∷ []) i32
    ∷ new_op 0x47 "i32.ne" (i32 ∷ i32 ∷ []) i32
    ∷ new_op 0x48 "i32.lt_s" (i32 ∷ i32 ∷ []) i32
    ∷ new_op 0x49 "i32.lt_u" (i32 ∷ i32 ∷ []) i32
    ∷ new_op 0x4a "i32.gt_s" (i32 ∷ i32 ∷ []) i32
    ∷ new_op 0x4b "i32.gt_u" (i32 ∷ i32 ∷ []) i32
    ∷ new_op 0x4c "i32.le_s" (i32 ∷ i32 ∷ []) i32
    ∷ new_op 0x4d "i32.le_u" (i32 ∷ i32 ∷ []) i32
    ∷ new_op 0x4e "i32.ge_s" (i32 ∷ i32 ∷ []) i32
    ∷ new_op 0x4f "i32.ge_u" (i32 ∷ i32 ∷ []) i32
    ∷ new_op 0x50 "i64.eqz" (i64 ∷ []) i32
    ∷ new_op 0x51 "i64.eq" (i64 ∷ i64 ∷ []) i32
    ∷ new_op 0x52 "i64.ne" (i64 ∷ i64 ∷ []) i32
    ∷ new_op 0x53 "i64.lt_s" (i64 ∷ i64 ∷ []) i32
    ∷ new_op 0x54 "i64.lt_u" (i64 ∷ i64 ∷ []) i32
    ∷ new_op 0x55 "i64.gt_s" (i64 ∷ i64 ∷ []) i32
    ∷ new_op 0x56 "i64.gt_u" (i64 ∷ i64 ∷ []) i32
    ∷ new_op 0x57 "i64.le_s" (i64 ∷ i64 ∷ []) i32
    ∷ new_op 0x58 "i64.le_u" (i64 ∷ i64 ∷ []) i32
    ∷ new_op 0x59 "i64.ge_s" (i64 ∷ i64 ∷ []) i32
    ∷ new_op 0x5a "i64.ge_u" (i64 ∷ i64 ∷ []) i32
    ∷ new_op 0x5b "f32.eq" (f32 ∷ f32 ∷ []) i32
    ∷ new_op 0x5c "f32.ne" (f32 ∷ f32 ∷ []) i32
    ∷ new_op 0x5d "f32.lt" (f32 ∷ f32 ∷ []) i32
    ∷ new_op 0x5e "f32.gt" (f32 ∷ f32 ∷ []) i32
    ∷ new_op 0x5f "f32.le" (f32 ∷ f32 ∷ []) i32
    ∷ new_op 0x60 "f32.ge" (f32 ∷ f32 ∷ []) i32
    ∷ new_op 0x61 "f64.eq" (f64 ∷ f64 ∷ []) i32
    ∷ new_op 0x62 "f64.ne" (f64 ∷ f64 ∷ []) i32
    ∷ new_op 0x63 "f64.lt" (f64 ∷ f64 ∷ []) i32
    ∷ new_op 0x64 "f64.gt" (f64 ∷ f64 ∷ []) i32
    ∷ new_op 0x65 "f64.le" (f64 ∷ f64 ∷ []) i32
    ∷ new_op 0x66 "f64.ge" (f64 ∷ f64 ∷ []) i32
    ∷ []

-- operators/num.go
pub num_ops : List Op
num_ops =
    new_op 0x67 "i32.clz" (i32 ∷ []) i32
    ∷ new_op 0x68 "i32.ctz" (i32 ∷ []) i32
    ∷ new_op 0x69 "i32.popcnt" (i32 ∷ []) i32
    ∷ new_op 0x6a "i32.add" (i32 ∷ i32 ∷ []) i32
    ∷ new_op 0x6b "i32.sub" (i32 ∷ i32 ∷ []) i32
    ∷ new_op 0x6c "i32.mul" (i32 ∷ i32 ∷ []) i32
    ∷ new_op 0x6d "i32.div_s" (i32 ∷ i32 ∷ []) i32
    ∷ new_op 0x6e "i32.div_u" (i32 ∷ i32 ∷ []) i32
    ∷ new_op 0x6f "i32.rem_s" (i32 ∷ i32 ∷ []) i32
    ∷ new_op 0x70 "i32.rem_u" (i32 ∷ i32 ∷ []) i32
    ∷ new_op 0x71 "i32.and" (i32 ∷ i32 ∷ []) i32
    ∷ new_op 0x72 "i32.or" (i32 ∷ i32 ∷ []) i32
    ∷ new_op 0x73 "i32.xor" (i32 ∷ i32 ∷ []) i32
    ∷ new_op 0x74 "i32.shl" (i32 ∷ i32 ∷ []) i32
    ∷ new_op 0x75 "i32.shr_s" (i32 ∷ i32 ∷ []) i32
    ∷ new_op 0x76 "i32.shr_u" (i32 ∷ i32 ∷ []) i32
    ∷ new_op 0x77 "i32.rotl" (i32 ∷ i32 ∷ []) i32
    ∷ new_op 0x78 "i32.rotr" (i32 ∷ i32 ∷ []) i32
    ∷ new_op 0x79 "i64.clz" (i64 ∷ []) i64
    ∷ new_op 0x7a "i64.ctz" (i64 ∷ []) i64
    ∷ new_op 0x7b "i64.popcnt" (i64 ∷ []) i64
    ∷ new_op 0x7c "i64.add" (i64 ∷ i64 ∷ []) i64
    ∷ new_op 0x7d "i64.sub" (i64 ∷ i64 ∷ []) i64
    ∷ new_op 0x7e "i64.mul" (i64 ∷ i64 ∷ []) i64
    ∷ new_op 0x7f "i64.div_s" (i64 ∷ i64 ∷ []) i64
    ∷ new_op 0x80 "i64.div_u" (i64 ∷ i64 ∷ []) i64
    ∷ new_op 0x81 "i64.div_u" (i64 ∷ i64 ∷ []) i64
    ∷ new_op 0x82 "i64.rem_u" (i64 ∷ i64 ∷ []) i64
    ∷ new_op 0x83 "i64.and" (i64 ∷ i64 ∷ []) i64
    ∷ new_op 0x84 "i64.or" (i64 ∷ i64 ∷ []) i64
    ∷ new_op 0x85 "i64.xor" (i64 ∷ i64 ∷ []) i64
    ∷ new_op 0x86 "i64.shl" (i64 ∷ i64 ∷ []) i64
    ∷ new_op 0x87 "i64.shr_s" (i64 ∷ i64 ∷ []) i64
    ∷ new_op 0x88 "i64.shr_u" (i64 ∷ i64 ∷ []) i64
    ∷ new_op 0x89 "i64.rotl" (i64 ∷ i64 ∷ []) i64
    ∷ new_op 0x8a "i64.rotr" (i64 ∷ i64 ∷ []) i64
    ∷ new_op 0x8b "f32.abs" (f32 ∷ []) f32
    ∷ new_op 0x8c "f32.neg" (f32 ∷ []) f32
    ∷ new_op 0x8d "f32.ceil" (f32 ∷ []) f32
    ∷ new_op 0x8e "f32.floor" (f32 ∷ []) f32
    ∷ new_op 0x8f "f32.trunc" (f32 ∷ []) f32
    ∷ new_op 0x90 "f32.nearest" (f32 ∷ []) f32
    ∷ new_op 0x91 "f32.sqrt" (f32 ∷ []) f32
    ∷ new_op 0x92 "f32.add" (f32 ∷ f32 ∷ []) f32
    ∷ new_op 0x93 "f32.sub" (f32 ∷ f32 ∷ []) f32
    ∷ new_op 0x94 "f32.mul" (f32 ∷ f32 ∷ []) f32
    ∷ new_op 0x95 "f32.div" (f32 ∷ f32 ∷ []) f32
    ∷ new_op 0x96 "f32.min" (f32 ∷ f32 ∷ []) f32
    ∷ new_op 0x97 "f32.max" (f32 ∷ f32 ∷ []) f32
    ∷ new_op 0x98 "f32.copysign" (f32 ∷ f32 ∷ []) f32
    ∷ new_op 0x99 "f64.abs" (f64 ∷ []) f64
    ∷ new_op 0x9a "f64.neg" (f64 ∷ []) f64
    ∷ new_op 0x9b "f64.ceil" (f64 ∷ []) f64
    ∷ new_op 0x9c "f64.floor" (f64 ∷ []) f64
    ∷ new_op 0x9d "f64.trunc" (f64 ∷ []) f64
    ∷ new_op 0x9e "f64.nearest" (f64 ∷ []) f64
    ∷ new_op 0x9f "f64.sqrt" (f64 ∷ []) f64
    ∷ new_op 0xa0 "f64.add" (f64 ∷ f64 ∷ []) f64
    ∷ new_op 0xa1 "f64.sub" (f64 ∷ f64 ∷ []) f64
    ∷ new_op 0xa2 "f64.mul" (f64 ∷ f64 ∷ []) f64
    ∷ new_op 0xa3 "f64.div" (f64 ∷ f64 ∷ []) f64
    ∷ new_op 0xa4 "f64.min" (f64 ∷ f64 ∷ []) f64
    ∷ new_op 0xa5 "f64.max" (f64 ∷ f64 ∷ []) f64
    ∷ new_op 0xa6 "f64.copysign" (f64 ∷ f64 ∷ []) f64
    ∷ []

-- operators/conv.go
pub conv_ops : List Op
conv_ops =
    new_conversion_op 0xa7 "i32.wrap/i64" i64 i32
    ∷ new_conversion_op 0xa8 "i32.trunc_s/f32" f32 i32
    ∷ new_conversion_op 0xa9 "i32.trunc_u/f32" f32 i32
    ∷ new_conversion_op 0xaa "i32.trunc_s/f64" f64 i32
    ∷ new_conversion_op 0xab "i32.trunc_u/f64" f64 i32
    ∷ new_conversion_op 0xac "i64.extend_s/i32" i32 i64
    ∷ new_conversion_op 0xad "i64.extend_u/i32" i32 i64
    ∷ new_conversion_op 0xae "i64.trunc_s/f32" f32 i64
    ∷ new_conversion_op 0xaf "i64.trunc_u/f32" f32 i64
    ∷ new_conversion_op 0xb0 "i64.trunc_s/f64" f64 i64
    ∷ new_conversion_op 0xb1 "i64.trunc_u/f64" f64 i64
    ∷ new_conversion_op 0xb2 "f32.convert_s/i32" i32 f32
    ∷ new_conversion_op 0xb3 "f32.convert_u/i32" i32 f32
    ∷ new_conversion_op 0xb4 "f32.convert_s/i64" i64 f32
    ∷ new_conversion_op 0xb5 "f32.convert_u/i64" i64 f32
    ∷ new_conversion_op 0xb6 "f32.demote/f64" f64 f32
    ∷ new_conversion_op 0xb7 "f64.convert_s/i32" i32 f64
    ∷ new_conversion_op 0xb8 "f64.convert_u/i32" i32 f64
    ∷ new_conversion_op 0xb9 "f64.convert_s/i64" i64 f64
    ∷ new_conversion_op 0xba "f64.convert_u/i64" i64 f64
    ∷ new_conversion_op 0xbb "f64.promote/f32" f32 f64
    ∷ []

-- operators/reinterp.go
pub reinterp_ops : List Op
reinterp_ops =
    new_op 0xbc "i32.reinterpret/f32" (f32 ∷ []) i32
    ∷ new_op 0xbd "i64.reinterpret/f64" (f64 ∷ []) i64
    ∷ new_op 0xbe "f32.reinterpret/i32" (i32 ∷ []) f32
    ∷ new_op 0xbf "f64.reinterpret/i64" (i64 ∷ []) f64
    ∷ []

pub ops : List Op
unfolding control_ops call_ops parametric_ops var_ops memory_ops const_ops comp_ops num_ops conv_ops
    reinterp_ops
ops =
    control_ops
    ++ (call_ops
        ++ (parametric_ops
            ++ (var_ops
                ++ (memory_ops
                    ++ (const_ops ++ (comp_ops ++ (num_ops ++ (conv_ops ++ reinterp_ops))))))))

find_op : ℕ → List Op → Option Op
find_op code [] = none
find_op code (op ∷ rest) = if op.code == code then some op else find_op code rest

-- `New`: `none` is `InvalidOpcodeError`.
unfoldable pub new : ℕ → Option Op
unfolding ops find_op
new code = find_op code ops
