-- ===== src/Tests/Spills.antt =====
-- A function with a spilled register.
use mathlib.Core.List.Permᴰ
use compilador.Prelude.{All, ℕ, ◌+◌, ◌<◌, ◌≡◌, ◌↔◌, refl, true, some, List, [], ◌∷◌, arith, Returns}
use compilador.Ir.Types.{IrType}
use compilador.Ir.Instr.{Block}
use compilador.Regalloc.Build.{Regalloc}
use compilador.Spill.Entries.{SpillEntry}
use compilador.Spill.Rewrite.{spill_rewrite, rewrite_blocks}
use compilador.Spill.Reloads.{Any}
use compilador.Spill.Code.{AreBlockCodes, rewrite_blocks-AreBlockCodes}
use compilador.Spill.Clean.{IsFine, rewrite_blocks-IsFine}
use compilador.Spill.Correct.{IsSpillable, is_spilled, spill_rewrite-Returns}
use compilador.Tests.{sum_func, sum_graph}

-- `v0`, which is used twice, has no machine register.
abbrev sum_spilled : Regalloc
sum_spilled = record { n_vregs = 5; color = 254 ∷ 4 ∷ 5 ∷ 6 ∷ 1 ∷ []; n_spills = 1 }

abbrev digit : ℕ → List ℕ
digit v = (48 + v) ∷ []

abbrev in_place : List SpillEntry → List SpillEntry
in_place entries = entries

sum-IsSpillable : IsSpillable in_place sum_func sum_spilled
sum-IsSpillable = record {
  permutes = λ xs. Permᴰ.refl xs;
  some_spill = refl;
  counted = refl;
  known = omega arith;
  room = ground arith;
}

spill_rewrite-Returns_example :
    Returns (spill_rewrite digit in_place sum_func sum_spilled sum_graph) λ r.
      (entries : List SpillEntry) × (r.0 ≡ some entries)
      × ((k : ℕ) → k < 5 → (is_spilled sum_spilled k ≡ true) ↔ Any (λ e. e.vreg_id ≡ k) entries)
      × AreBlockCodes entries 5 sum_func.blocks r.1.blocks r.1.next_vreg
spill_rewrite-Returns_example =
    spill_rewrite-Returns digit in_place sum_func sum_spilled sum_graph sum-IsSpillable

abbrev first_entry : SpillEntry
first_entry = record {
  vreg_id = 0;
  slot_id = 3;
  vtype = IrType.i16;
  use_def_count = 3;
  entry_degree = 2;
}

rewrite_blocks-AreBlockCodes_example :
    AreBlockCodes
      (first_entry ∷ [])
      5
      sum_func.blocks
      (rewrite_blocks (first_entry ∷ []) sum_func sum_func.blocks).0
      (rewrite_blocks (first_entry ∷ []) sum_func sum_func.blocks).1.next_vreg
rewrite_blocks-AreBlockCodes_example =
    rewrite_blocks-AreBlockCodes 5 (first_entry ∷ []) sum_func sum_func.blocks (omega arith)
      (omega arith, tt) (ground arith)

rewrite_blocks-IsFine_example :
    All
      (λ (b : Block). All (IsFine 5 (first_entry ∷ [])) b.instrs)
      (rewrite_blocks (first_entry ∷ []) sum_func sum_func.blocks).0
rewrite_blocks-IsFine_example =
    rewrite_blocks-IsFine 5 (first_entry ∷ []) sum_func sum_func.blocks (omega arith)
      (omega arith, tt) (ground arith)
