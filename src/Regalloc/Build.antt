-- ===== src/Regalloc/Build.antt =====
-- `regalloc_build`
pub mod Correct
use compilador.Prelude.{ids_from, ℕ, zero, suc, List, [], ◌==◌, if◌then◌else◌, map}
use compilador.Ir.Instr.{Function}
use compilador.Interference.Matrix.{Ifg}
use compilador.Precolor.{Precolor, precolor_get}
use compilador.Regalloc.Coalesce.{Merged, coalesce}
use compilador.Regalloc.Simplify.{simplify}
use compilador.Regalloc.Select.{Colored, select, propagate}

pub record Regalloc : Type 0 where
  pub n_vregs : ℕ
  pub color : List ℕ
  pub n_spills : ℕ

-- The colours before phase 1: `PHYS_NONE`, or the one that is fixed.
abbrev pub seed : Precolor → ℕ → List ℕ
seed pc n = map (precolor_get pc) (ids_from 0 n)

unfoldable pub regalloc_build : (ℕ → ℕ) → Function → Ifg → Precolor → Regalloc
regalloc_build junk func g pc =
    let n = func.next_vreg in
    if n == 0
    then record { n_vregs = 0; color = []; n_spills = 0 }
    else let ids = ids_from 0 n in
      let merged = coalesce junk g pc n (record { alias = ids; color = seed pc n }) g.moves in
      let simplified = simplify junk g pc merged.alias n in
      let colored =
        select junk g pc merged.alias n ids (record { color = merged.color; n_spills = 0 })
          simplified.stack in
      record {
        n_vregs = n;
        color = propagate merged.alias n ids colored.color;
        n_spills = colored.n_spills;
      }
