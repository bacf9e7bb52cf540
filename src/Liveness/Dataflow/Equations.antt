-- ===== src/Liveness/Dataflow/Equations.antt =====
-- The equations of a block, and what one round does to the sets.
use compilador.Prelude.{
  ℕ, ◌<◌, ◌≡◌, refl, ◌∙◌, ap, Bool, true, false, not, ◌&&◌, ◌||◌, List, [], ◌∷◌, arith, ◌==◌,
  if◌then◌else◌, set, length, length-set, get_or-set, elem, Bool-cases, inl, inr, some,
}
use compilador.VregSet.{VregSet, init, has, union_into, minus_into, equal}
use compilador.VregSet.Laws.{IsSized, has-init, copy-eq}
use compilador.VregSet.Union.{
  union_into-IsSized, has-union_into, minus_into-IsSized, has-minus_into,
}
use compilador.Liveness.Cfg.{succs_at, preds_at}
use compilador.Liveness.Dataflow.{
  Flow, Env, set_at, use_def_at, union_live, new_live_in, store_sets, update, enqueue_all,
}

abbrev pub mem : List VregSet → ℕ → ℕ → Bool
mem sets id v = has (set_at sets id) v

-- Is the register in one of the sets?
abbrev pub any_live : List VregSet → List ℕ → ℕ → Bool
any_live sets [] v = false
any_live sets (s ∷ ss) v = mem sets s v || any_live sets ss v

-- Live at the entry of the block, by what is live at the entries of its successors.
abbrev pub entry_of : Env → List VregSet → ℕ → ℕ → Bool
entry_of e sets id v =
    has (use_def_at e id).use_set v
    || (any_live sets (succs_at e.cfg id) v && not (has (use_def_at e id).def_set v))

-- There are `nb` sets, of one capacity.
pub record AreSets (c nb : ℕ) (sets : List VregSet) : Type 0 where
  pub count : length sets ≡ nb
  pub sized : (id : ℕ) → id < nb → IsSized c (set_at sets id)

-- The edges are mutual, and all sets of the blocks have one capacity.
pub record IsEnv (c nb : ℕ) (e : Env) : Type 0 where
  pub scratch : IsSized c (init e.ncap)
  pub uses : (id : ℕ) → id < nb → IsSized c (use_def_at e id).use_set
  pub defs : (id : ℕ) → id < nb → IsSized c (use_def_at e id).def_set
  pub succs_inside : (id s : ℕ) → elem s (succs_at e.cfg id) ≡ true → s < nb
  pub preds_inside : (id p : ℕ) → elem p (preds_at e.cfg id) ≡ true → p < nb
  pub mutual_edges : (id p : ℕ) → id < nb → elem p (preds_at e.cfg id) ≡ elem id (succs_at e.cfg p)

pub any_live_mono :
    (a b : List VregSet) (ss : List ℕ) (v : ℕ)
    → ((s : ℕ) → mem a s v ≡ true → mem b s v ≡ true)
    → any_live a ss v ≡ true
    → any_live b ss v ≡ true
any_live_mono a b [] v h m = m
any_live_mono a b (s ∷ ss) v h m = ground (arith, h s, any_live_mono a b ss v h)

pub any_live-elem :
    (a : List VregSet) (ss : List ℕ) (v : ℕ)
    → any_live a ss v ≡ true
    → (x : ℕ) × (elem x ss ≡ true) × (mem a x v ≡ true)
any_live-elem a [] v m = absurd cc
any_live-elem a (x ∷ xs) v m = elim (Bool-cases (mem a x v)) [
  | inl here ↦ (x, ground arith, here)
  | inr later ↦ let (y, at, live) = any_live-elem a xs v (ground arith) in (y, ground arith, live)
]

pub elem-any_live :
    (a : List VregSet) (ss : List ℕ) (v x : ℕ)
    → elem x ss ≡ true
    → mem a x v ≡ true
    → any_live a ss v ≡ true
elem-any_live a [] v x at m = absurd cc
elem-any_live a (s ∷ ss) v x at m = elim (Bool-cases (x == s)) [
  | inl here ↦ let e : x ≡ s = ground arith in ground (arith, ap (λ t. mem a t v) e)
  | inr later ↦ ground (arith, elem-any_live a ss v x (ground arith) m)
]

pub any_live_congr :
    (a b : List VregSet) (ss : List ℕ) (v : ℕ)
    → ((s : ℕ) → elem s ss ≡ true → mem a s v ≡ mem b s v)
    → any_live a ss v ≡ any_live b ss v
any_live_congr a b [] v h = refl
any_live_congr a b (s ∷ ss) v h =
    let rest = any_live_congr a b ss v (λ x m. h x (ground arith)) in
    ground (arith, h s (ground arith))

pub set-AreSets :
    {c nb : ℕ} (sets : List VregSet) (id : ℕ) (s : VregSet)
    → AreSets c nb sets
    → id < nb
    → IsSized c s
    → AreSets c nb (set sets id s)
set-AreSets {c} sets id s z lt zs = record {
  count = length-set sets id s ∙ z.count;
  sized = λ x l. elim (Bool-cases (id == x)) [
    | inl here ↦ rw (get_or-set sets id x s _ (omega (arith, z.count)), here) zs
    | inr other ↦ rw (get_or-set sets id x s _ (omega (arith, z.count)), other) (z.sized x l)
  ];
}

module _ {c nb : ℕ} (sets : List VregSet) (z : AreSets c nb sets) where
  pub union_live-IsSized :
      (acc : VregSet) (ss : List ℕ)
      → IsSized c acc
      → ((s : ℕ) → elem s ss ≡ true → s < nb)
      → IsSized c (union_live sets acc ss)
        × ((v : ℕ) → has (union_live sets acc ss) v ≡ (has acc v || any_live sets ss v))
  unfolding union_live
  union_live-IsSized acc [] za inside = (za, λ v. ground arith)
  union_live-IsSized acc (s ∷ ss) za inside =
      let zs = z.sized s (inside s (ground arith)) in
      let (zr, mr) =
        union_live-IsSized (union_into acc (set_at sets s)).0 ss
          (union_into-IsSized acc (set_at sets s) za zs) (λ x m. inside x (ground arith)) in
      (zr, λ v. ground (arith, mr v, has-union_into acc (set_at sets s) v za zs))

module _ {c nb : ℕ} (e : Env) (env : IsEnv c nb e) where
  -- What one round computes for the block.
  abbrev pub out_at : Flow → ℕ → VregSet
  out_at st id = union_live st.live_in (init e.ncap) (succs_at e.cfg id)

  abbrev pub in_at : Flow → ℕ → VregSet
  in_at st id = new_live_in (use_def_at e id) (out_at st id)

  pub out_at_lem :
      (st : Flow) (id : ℕ)
      → AreSets c nb st.live_in
      → IsSized c (out_at st id)
        × ((v : ℕ) → has (out_at st id) v ≡ any_live st.live_in (succs_at e.cfg id) v)
  out_at_lem st id z =
      let (zo, mo) =
        union_live-IsSized st.live_in z (init e.ncap) (succs_at e.cfg id) env.scratch
          (env.succs_inside id) in
      (zo, λ v. ground (arith, mo v, has-init e.ncap v))

  pub in_at_lem :
      (st : Flow) (id : ℕ)
      → id < nb
      → AreSets c nb st.live_in
      → IsSized c (in_at st id) × ((v : ℕ) → has (in_at st id) v ≡ entry_of e st.live_in id v)
  unfolding new_live_in
  in_at_lem st id lt z =
      let (zo, mo) = out_at_lem st id z in
      let ud = use_def_at e id in
      let zm = minus_into-IsSized (out_at st id) ud.def_set zo in
      (
        union_into-IsSized (minus_into (out_at st id) ud.def_set) ud.use_set zm (env.uses id lt),
        λ v. ground (
          arith,
          mo v,
          has-union_into (minus_into (out_at st id) ud.def_set) ud.use_set v zm (env.uses id lt),
          has-minus_into (out_at st id) ud.def_set v zo (env.defs id lt),
        ),
      )

  -- The state after a round in which the set at the entry grows, and after one in which it does not.
  abbrev pub grown : Flow → ℕ → Flow
  grown st id =
      enqueue_all
        (record st {
          live_in = set st.live_in id (in_at st id);
          live_out = set st.live_out id (out_at st id);
        })
        (preds_at e.cfg id)

  abbrev pub settled : Flow → ℕ → Flow
  settled st id = record st { live_out = set st.live_out id (out_at st id) }

  -- No `assert` fails, and the round does one of the two.
  pub update_cases :
      (st : Flow) (id : ℕ)
      → id < nb
      → AreSets c nb st.live_in
      → AreSets c nb st.live_out
      → update e st id
        ≡ some (if equal (in_at st id) (set_at st.live_in id) then settled st id else grown st id)
  unfolding update store_sets
  update_cases st id lt zi zo =
      let (so, _) = out_at_lem st id zi in
      let (si, _) = in_at_lem st id lt zi in
      rw
        (
          copy-eq (init e.ncap) (out_at st id) env.scratch so,
          copy-eq (set_at st.live_out id) (out_at st id) (zo.sized id lt) so,
          copy-eq (set_at st.live_in id) (in_at st id) (zi.sized id lt) si,
        )
        (branches _ _ (equal (in_at st id) (set_at st.live_in id)))
    where
      branches :
          (x y : Flow) (b : Bool) → (if b then some x else some y) ≡ some (if b then x else y)
      branches x y true = refl
      branches x y false = refl
