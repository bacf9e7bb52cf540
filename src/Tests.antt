-- ===== src/Tests.antt =====
-- Concrete inputs: a function of six instructions, its live sets, graph and fixed registers.
pub mod Allocate
pub mod Code
pub mod Analyses
pub mod Dataflow
pub mod Scopes
pub mod Sets
pub mod Spills
pub mod Symbols
pub mod Types
use compilador.Prelude.{ℕ, Bool, List, [], ◌∷◌, ◌<◌, ◌^◌, refl, arith}
use compilador.Prelude.Int.{ℤ}
use compilador.VregSet.{VregSet}
use compilador.Ir.Types.{IrType, Value, no_value}
use compilador.Ir.Instr.{Op, Instr, Block, Function}
use compilador.Liveness.Result.{IrLiveness}
use compilador.Interference.Adjacency.{AdjList}
use compilador.Interference.Matrix.{Ifg}
use compilador.Precolor.{Precolor}
use compilador.VregSet.Laws.{IsSized}
use compilador.Interference.Build.Edges.{AreSized}
use compilador.Regalloc.Build.{Regalloc, regalloc_build}

abbrev pub v : ℕ → Value
v k = Value.vreg k IrType.i16

abbrev pub const_to : ℕ → Instr
const_to d = record {
  op = Op.const;
  dst = v d;
  src0 = Value.imm (ℤ.pos 7) IrType.i16;
  src1 = no_value;
}

abbrev pub copy_to : ℕ → ℕ → Instr
copy_to d s = record { op = Op.copy; dst = v d; src0 = v s; src1 = no_value }

abbrev pub add_to : ℕ → ℕ → ℕ → Instr
add_to d a b = record { op = Op.add; dst = v d; src0 = v a; src1 = v b }

abbrev pub call_to : ℕ → List Value → Instr
call_to d args = record {
  op = Op.call [] args Bool.false;
  dst = v d;
  src0 = no_value;
  src1 = no_value;
}

abbrev pub ret_of : ℕ → Instr
ret_of s = record { op = Op.ret; dst = no_value; src0 = v s; src1 = no_value }

-- `v0 = 7; v1 = v0; v3 = 7; v2 = v1 + v3; v4 = v0 + v2; return v4;`
abbrev pub sum_instrs : List Instr
sum_instrs = const_to 0 ∷ copy_to 1 0 ∷ const_to 3 ∷ add_to 2 1 3 ∷ add_to 4 0 2 ∷ ret_of 4 ∷ []

abbrev pub of_mask : ℕ → VregSet
of_mask m = record { words = m ∷ []; cap = 64 }

-- The sets that are live after each instruction.
abbrev pub sum_live : List VregSet
sum_live = of_mask 1 ∷ of_mask 3 ∷ of_mask 11 ∷ of_mask 5 ∷ of_mask 16 ∷ of_mask 0 ∷ []

abbrev pub sum_func : Function
sum_func = record {
  name = [];
  ret_type = IrType.i16;
  params = [];
  next_vreg = 5;
  next_block_id = 1;
  next_slot_id = 0;
  slots = [];
  blocks = record { id = 0; instrs = sum_instrs } ∷ [];
}

abbrev pub sum_liv : IrLiveness
sum_liv = record { n_vregs = 5; n_blocks = 1; n_instrs = 6; blk = []; live_after = sum_live }

-- `return v4` fixes `v4` to r1.
abbrev pub sum_precolor : Precolor
sum_precolor = record { n_vregs = 5; color = 255 ∷ 255 ∷ 255 ∷ 255 ∷ 1 ∷ []; call_live = of_mask 0 }

abbrev listed : List ℕ → AdjList
listed ids = record { ids = ids; cap = 4 }

-- The edges 0-2, 0-3 and 1-3.
abbrev pub sum_graph : Ifg
sum_graph = record {
  n = 5;
  tri = 26 ∷ [];
  row_off = 0 ∷ 0 ∷ 1 ∷ 3 ∷ 6 ∷ [];
  adj =
      listed (2 ∷ 3 ∷ [])
      ∷ listed (3 ∷ [])
      ∷ listed (0 ∷ [])
      ∷ listed (0 ∷ 1 ∷ [])
      ∷ record { ids = []; cap = 0 }
      ∷ [];
  moves = record { dst = 1; src = 0 } ∷ [];
}

abbrev pub no_junk : ℕ → ℕ
no_junk k = 0

abbrev pub sum_alloc : Regalloc
sum_alloc = regalloc_build no_junk sum_func sum_graph sum_precolor

pub of_mask-IsSized : (m : ℕ) → m < 2 ^ 64 → IsSized 64 (of_mask m)
of_mask-IsSized m lt = record {
  cap_eq = refl;
  width = refl;
  small = omega arith;
  bounded = λ i. ground arith;
}

pub sum_live-AreSized : AreSized 64 sum_live
sum_live-AreSized = (
  of_mask-IsSized 1 (omega arith),
  (
    of_mask-IsSized 3 (omega arith),
    (
      of_mask-IsSized 11 (omega arith),
      (
        of_mask-IsSized 5 (omega arith),
        (of_mask-IsSized 16 (omega arith), (of_mask-IsSized 0 (omega arith), tt)),
      ),
    ),
  ),
)
