-- ===== src/Liveness/Dataflow/Solve.antt =====
-- The rounds of the worklist loop, and the solution that it leaves.
use compilador.Prelude.{
  ℕ, zero, suc, ◌+◌, ◌*◌, ◌≤◌, ◌<◌, ◌≡◌, refl, ◌∙◌, ap, sym, Bool, true, false, not, List, [], ◌∷◌,
  arith, ◌==◌, ==_iff, ltb, get_or-set, get_or-replicate_at, if◌then◌else◌, get_or, set, replicate,
  length, length-replicate, elem, Bool-cases, inl, inr, if_either, some, none, Option, Returns,
  count_below, ◌>>=◌,
}
use compilador.Prelude.Counting.{
  Distinct, count_below-le_bound, count_below_mono, count_below_eq, sum_below, sum_below-lt,
  sum_below-le_const,
}
use compilador.VregSet.{VregSet, init, has, equal}
use compilador.VregSet.Laws.{has-init, has-out}
use compilador.VregSet.Union.{equal_iff}
use compilador.Ir.Instr.{Block}
use compilador.Liveness.Dataflow.{
  Flow, Env, set_at, process, pop_step, flow_loop, is_empty, start_queue, empty_flow, rounds, solve,
}
use compilador.Liveness.Dataflow.Queue.{
  IsQueued, length-wl, popped, popped-IsQueue, start_queue-IsQueued,
}
use compilador.Liveness.Dataflow.Equations.{
  mem, AreSets, IsEnv, in_at, in_at_lem, grown, update_cases,
}
use compilador.Liveness.Dataflow.Progress.{
  IsPartial, IsSolved, IsClosed, is_present, is_some, in_grows, settled-IsPartial, grown-IsPartial,
  grown-IsQueued,
}

-- How many registers the sets at the entries can still gain.
abbrev missing : ℕ → List VregSet → ℕ → ℕ
missing c sets id = count_below c (λ v. not (mem sets id v))

abbrev deficit : ℕ → ℕ → List VregSet → ℕ
deficit c nb sets = sum_below nb (missing c sets)

abbrev potential : ℕ → ℕ → Flow → ℕ
potential c nb st = deficit c nb st.live_in * (nb + 1) + length st.wl

lower_potential : (d' d k q' q : ℕ) → d' < d → q' ≤ k → d' * (k + 1) + q' < d * (k + 1) + q
lower_potential d' d k q' q h le = grind arith

module _ {c nb : ℕ} (e : Env) (env : IsEnv c nb e) (wanted : List ℕ) (s : ℕ → ℕ → Type 0)
    (closed : IsClosed nb e s) where
  abbrev Partial : (ℕ → Bool) → Flow → Type 0
  Partial hot st = IsPartial c nb e wanted s hot st

  module _ (st : Flow) (id : ℕ) (lt : id < nb) (z : IsPartial c nb e wanted s (λ x. id == x) st)
      (changed : equal (in_at e env st id) (set_at st.live_in id) ≡ false) where
    abbrev after : List VregSet
    after = set st.live_in id (in_at e env st id)

    fewer : (x : ℕ) → missing c after x ≤ missing c st.live_in x
    fewer x =
        count_below_mono c (λ v. not (mem after x v)) (λ v. not (mem st.live_in x v))
          (λ v m. ground (arith, in_grows e env wanted s closed st id lt z x v))

    same_sets :
        missing c st.live_in id ≤ missing c after id
        → equal (in_at e env st id) (set_at st.live_in id) ≡ true
    same_sets le =
        let (si, _) = in_at_lem e env st id lt z.ins in
        let zo = z.ins.sized id lt in
        let below =
          count_below_eq c (λ v. not (mem after id v)) (λ v. not (mem st.live_in id v))
            (λ v m. ground (arith, in_grows e env wanted s closed st id lt z id v)) le in
        (equal_iff (in_at e env st id) (set_at st.live_in id) si zo).1 (λ v.
          elim (Bool-cases (ltb v c)) [
            | inl l ↦ ground (arith, below v (ground arith), read_new v)
            | inr out ↦
                has-out (in_at e env st id) v si (ground arith)
                ∙ sym (has-out (set_at st.live_in id) v zo (ground arith))
          ])
      where
        read_new :
            (v : ℕ) → mem (set st.live_in id (in_at e env st id)) id v ≡ has (in_at e env st id) v
        read_new v =
            ap (λ (t : VregSet). has t v)
              (get_or-set st.live_in id id (in_at e env st id) _ (omega (arith, z.ins.count))
                ∙ rw ((==_iff id id).1 refl) refl)

    deficit-lt : deficit c nb (grown e env st id).live_in < deficit c nb st.live_in
    deficit-lt =
        rw (grown-IsQueued e env wanted s closed st id lt z).ins
          (sum_below-lt nb id (missing c after) (missing c st.live_in) lt strictly (λ x l. fewer x))
      where
        strictly : missing c after id < missing c st.live_in id
        strictly = elim (Bool-cases (ltb (missing c after id) (missing c st.live_in id))) [
          | inl less ↦ ground arith
          | inr more ↦ let no = same_sets (ground arith) in cc
        ]

  round_at :
      (st : Flow) (id : ℕ)
      → id < nb
      → IsPartial c nb e wanted s (λ x. id == x) st
      → (b : Option Block) → get_or e.by_id id none ≡ b
      → Returns
          (process e st id b)
          λ t. IsPartial c nb e wanted s (λ x. false) t × (potential c nb t < potential c nb st + 1)
  unfolding process
  round_at st id lt z none gone = (
    st,
    refl,
    (
      record {
        queue = z.queue;
        ins = z.ins;
        outs = z.outs;
        grows = z.grows;
        within = z.within;
        solved = λ x l w p q. elim (Bool-cases (id == x)) [
          | inl here ↦
              let at : id ≡ x = ground arith in
              let absent : is_present e x ≡ false = ap (is_present e) (sym at) ∙ ap is_some gone in
              cc
          | inr other ↦ z.solved x l w p (ground arith)
        ];
      },
      omega arith,
    ),
  )
  round_at st id lt z (some b) here = (
    _,
    update_cases e env st id lt z.ins z.outs,
    if_either
        (λ (t : Flow).
          IsPartial c nb e wanted s (λ x. false) t × (potential c nb t < potential c nb st + 1))
        (equal (in_at e env st id) (set_at st.live_in id))
        (λ same. (settled-IsPartial e env wanted s closed st id lt z same, omega arith))
        (λ changed. (
          grown-IsPartial e env wanted s closed st id lt z,
          omega (
            arith,
            lower_potential (deficit c nb (grown e env st id).live_in) (deficit c nb st.live_in) nb
                (length (grown e env st id).wl) (length st.wl) (deficit-lt st id lt z changed)
                (length-wl nb (grown e env st id)
                  (grown-IsQueued e env wanted s closed st id lt z).queue),
          ),
        )),
  )

  popped-IsPartial :
      (st : Flow) (id : ℕ) (rest : List ℕ)
      → st.wl ≡ id ∷ rest
      → IsPartial c nb e wanted s (λ x. false) st
      → IsPartial c nb e wanted s (λ x. id == x) (popped st id rest)
  popped-IsPartial st id rest p z = record {
    queue = popped-IsQueue nb st id rest p z.queue;
    ins = z.ins;
    outs = z.outs;
    grows = z.grows;
    within = z.within;
    solved = λ x l w o q.
        let old = z.solved x l w o (ap (elem x) p ∙ ground arith) in
        record { at_entry = old.at_entry; at_exit = old.at_exit };
  }

  abbrev Done : Flow → Type 0
  Done t = IsPartial c nb e wanted s (λ x. false) t × (t.wl ≡ [])

  round_from :
      (fuel : ℕ) (st : Flow) (wl : List ℕ)
      → st.wl ≡ wl
      → IsPartial c nb e wanted s (λ x. false) st
      → potential c nb st ≤ suc fuel
      → ((t : Flow)
          → IsPartial c nb e wanted s (λ x. false) t
          → potential c nb t ≤ fuel
          → Returns (flow_loop fuel e t) Done)
      → Returns (if is_empty wl then some st else (pop_step e st wl >>= flow_loop fuel e)) Done
  unfolding pop_step
  round_from fuel st [] p z le ih = (st, refl, (z, p))
  round_from fuel st (id ∷ rest) p z le ih =
      let lt : id < nb = z.queue.inside id (ap (elem id) p ∙ ground arith) in
      let (t, run, (zt, less)) =
        round_at (popped st id rest) id lt (popped-IsPartial st id rest p z)
          (get_or e.by_id id none) refl in
      let (u, run', du) = ih t zt (omega (arith, less, ap length p)) in (u, rw run run', du)

  no_rounds :
      (st : Flow) (wl : List ℕ)
      → st.wl ≡ wl
      → IsPartial c nb e wanted s (λ x. false) st
      → potential c nb st ≤ 0
      → Returns (if is_empty wl then some st else none) Done
  no_rounds st [] p z le = (st, refl, (z, p))
  no_rounds st (x ∷ xs) p z le = absurd (omega (arith, ap length p))

  flow_loop-Returns :
      (fuel : ℕ) (st : Flow)
      → IsPartial c nb e wanted s (λ x. false) st
      → potential c nb st ≤ fuel
      → Returns (flow_loop fuel e st) Done
  unfolding flow_loop
  flow_loop-Returns zero st z le = no_rounds st st.wl refl z le
  flow_loop-Returns (suc fuel) st z le = round_from fuel st st.wl refl z le (flow_loop-Returns fuel)

widen : (d m q n : ℕ) → d ≤ m → q ≤ n → d * (n + 1) + q ≤ m * (n + 1) + n
widen d m q n h le = grind arith

start_bound : (d n c k q : ℕ) → d ≤ n * c → q ≤ n → k ≡ c → d * (n + 1) + q ≤ rounds n k
start_bound d n c k q h le e = rw e (widen d (n * c) q n h le)

module _ {c nb : ℕ} (e : Env) (env : IsEnv c nb e) (rpo : List ℕ) (s : ℕ → ℕ → Type 0)
    (closed : IsClosed nb e s) (inside : (x : ℕ) → elem x rpo ≡ true → x < nb)
    (distinct : Distinct rpo) where
  abbrev first : Flow
  first = start_queue (empty_flow e.ncap nb) rpo

  first-IsQueued : IsQueued nb rpo (empty_flow e.ncap nb) first
  first-IsQueued =
      start_queue-IsQueued nb (empty_flow e.ncap nb) rpo (λ x m. (inside x m, refl)) distinct
        (record {
          marks = length-replicate nb false;
          inside = λ x m. cc;
          synced = λ x lt. get_or-replicate_at nb x false true lt;
          distinct = tt;
        })

  empty-AreSets : AreSets c nb (replicate nb (init e.ncap))
  empty-AreSets = record {
    count = length-replicate nb (init e.ncap);
    sized = λ id lt. rw (get_or-replicate_at nb id (init e.ncap) _ lt) env.scratch;
  }

  empty-mem : (id v : ℕ) → id < nb → mem (replicate nb (init e.ncap)) id v ≡ false
  empty-mem id v lt =
      ap (λ (t : VregSet). has t v) (get_or-replicate_at nb id (init e.ncap) _ lt)
      ∙ has-init e.ncap v

  first-IsPartial : IsPartial c nb e rpo s (λ x. false) first
  first-IsPartial =
      let q = first-IsQueued in
      record {
        queue = q.queue;
        ins = rw q.ins empty-AreSets;
        outs = rw q.outs empty-AreSets;
        grows = λ id v lt m. nothing id v lt (rw q.ins at m);
        within = λ id v lt m. nothing id v lt (rw q.ins at m);
        solved = λ x l w p n. absurd (ground (arith, q.gained x));
      }
    where
      nothing : (id v : ℕ) {A : Type 0} → id < nb → mem (replicate nb (init e.ncap)) id v ≡ true → A
      nothing id v lt m = let none_there = empty-mem id v lt in cc

  first-potential : potential c nb first ≤ rounds nb (init e.ncap).cap
  first-potential =
      start_bound (deficit c nb first.live_in) nb c (init e.ncap).cap (length first.wl)
        (sum_below-le_const nb c (missing c first.live_in)
          (λ x lt. count_below-le_bound c (λ v. not (mem first.live_in x v))))
        (length-wl nb first first-IsQueued.queue) env.scratch.cap_eq

  -- The worklist loop ends within its rounds, and no `assert` fails. From distinct ids below `nb`, on
  -- sets of one capacity and with mutual edges: the equations of every block of the first worklist
  -- hold at the end, and the sets at the entries hold no more than any sets that are closed under the
  -- equations of all blocks.
  pub solve-Returns : Returns (solve e nb rpo) λ t.
      ((id : ℕ) → id < nb → elem id rpo ≡ true → is_present e id ≡ true → IsSolved e t id)
      × ((id v : ℕ) → id < nb → mem t.live_in id v ≡ true → s id v)
      × AreSets c nb t.live_in
      × AreSets c nb t.live_out
  unfolding solve
  solve-Returns =
      let (t, run, (z, empty)) =
        flow_loop-Returns e env rpo s closed (rounds nb (init e.ncap).cap) first first-IsPartial
          first-potential in
      (t, run, (λ id lt m p. z.solved id lt m p (ap (elem id) empty), z.within, z.ins, z.outs))
