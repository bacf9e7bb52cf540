-- ===== src/Ir/Types.antt =====
-- `ir_type_t` with its constructors, equality and size, and `ir_value_t`.
use compilador.Prelude.{
  ℕ, ◌*◌, ◌%◌, ◌^◌, Bool, true, false, List, Option, none, some, ◌==◌, if◌then◌else◌, take,
  bytes_eq,
}
use compilador.Prelude.Int.{ℤ}

pub data IrType : Type 0 where
  void i1 i8 i16 i32 ptr : IrType
  array : IrType → ℕ → IrType
  struct union : List ℕ → IrType

-- `snprintf` into `char tag[64]` keeps 63 bytes.
abbrev pub type_struct : List ℕ → IrType
type_struct tag = struct (take 63 tag)

abbrev pub type_union : List ℕ → IrType
type_union tag = union (take 63 tag)

unfoldable pub type_is_integer : IrType → Bool
type_is_integer i1 = true
type_is_integer i8 = true
type_is_integer i16 = true
type_is_integer i32 = true
type_is_integer void = false
type_is_integer ptr = false
type_is_integer (array elem count) = false
type_is_integer (struct tag) = false
type_is_integer (union tag) = false

-- The `kind` of a type, as its number in `ir_type_kind_t`.
abbrev pub kind : IrType → ℕ
kind void = 0
kind i1 = 1
kind i8 = 2
kind i16 = 3
kind i32 = 4
kind ptr = 5
kind (array elem count) = 6
kind (struct tag) = 7
kind (union tag) = 8

-- `strncmp(a.tag, b.tag, 64) == 0` for two aggregates of one kind.
tags_equal : IrType → IrType → Bool
tags_equal (struct a) (struct b) = bytes_eq (take 64 a) (take 64 b)
tags_equal (union a) (union b) = bytes_eq (take 64 a) (take 64 b)
tags_equal a b = true

unfoldable pub type_equal : IrType → IrType → Bool
unfolding tags_equal
type_equal a b = if kind a == kind b then tags_equal a b else false

-- In 16-bit words; the product is one of `size_t`.
unfoldable pub type_size_words : IrType → ℕ
type_size_words void = 0
type_size_words i1 = 1
type_size_words i8 = 1
type_size_words i16 = 1
type_size_words i32 = 2
type_size_words ptr = 1
type_size_words (array elem count) = count * type_size_words elem % 2 ^ 64
type_size_words (struct tag) = 1
type_size_words (union tag) = 1

-- `ir_value_t`: each kind with its payload and, where the code gives it one, its type.
pub data Value : Type 0 where
  vreg slot : ℕ → IrType → Value
  global : List ℕ → IrType → Value
  imm : ℤ → IrType → Value
  label : ℕ → Value
  no_value : Value

-- `snprintf` into `char name[128]`
abbrev pub val_global : List ℕ → IrType → Value
val_global name type = global (take 127 name) type

-- The id, where the kind is `IR_VAL_VREG`.
abbrev pub vreg_of : Value → Option ℕ
vreg_of (vreg v type) = some v
vreg_of (slot s type) = none
vreg_of (global name type) = none
vreg_of (imm k type) = none
vreg_of (label b) = none
vreg_of no_value = none

-- `value.kind == IR_VAL_VREG && value.as.vreg == v`
abbrev pub is_vreg : ℕ → Value → Bool
is_vreg v (vreg w type) = w == v
is_vreg v (slot s type) = false
is_vreg v (global name type) = false
is_vreg v (imm k type) = false
is_vreg v (label b) = false
is_vreg v no_value = false
