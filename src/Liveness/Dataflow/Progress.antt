-- ===== src/Liveness/Dataflow/Progress.antt =====
-- One round of the worklist loop on a partial solution.
use compilador.Prelude.{
  ℕ, ◌<◌, ◌≡◌, refl, ◌∙◌, ap, sym, subst, Bool, true, false, ◌||◌, List, arith, ◌==◌, ==_iff,
  if◌then◌else◌, get_or, set, get_or-set, elem, Bool-cases, inl, inr, if_either, some, none, Option,
}
use compilador.VregSet.{VregSet, has, equal}
use compilador.VregSet.Union.{equal_iff}
use compilador.Ir.Instr.{Block}
use compilador.Liveness.Cfg.{succs_at, preds_at}
use compilador.Liveness.Dataflow.{Flow, Env, set_at, use_def_at}
use compilador.Liveness.Dataflow.Queue.{IsQueue, IsQueued, enqueue_all-IsQueued}
use compilador.Liveness.Dataflow.Equations.{
  mem, any_live, entry_of, AreSets, IsEnv, any_live_mono, any_live-elem, any_live_congr,
  set-AreSets, in_at, out_at, in_at_lem, out_at_lem, grown, settled,
}

abbrev pub is_some : Option Block → Bool
is_some none = false
is_some (some b) = true

abbrev pub is_present : Env → ℕ → Bool
is_present e id = is_some (get_or e.by_id id none)

-- The equations of one block hold.
pub record IsSolved (e : Env) (st : Flow) (id : ℕ) : Type 0 where
  pub at_entry : (v : ℕ) → mem st.live_in id v ≡ entry_of e st.live_in id v
  pub at_exit : (v : ℕ) → mem st.live_out id v ≡ any_live st.live_in (succs_at e.cfg id) v

-- The sets `s` take in what the equations ask for.
pub record IsClosed (nb : ℕ) (e : Env) (s : ℕ → ℕ → Type 0) : Type 0 where
  pub uses : (id v : ℕ) → id < nb → has (use_def_at e id).use_set v ≡ true → s id v
  pub edges :
      (id to v : ℕ)
      → id < nb
      → elem to (succs_at e.cfg id) ≡ true
      → has (use_def_at e id).def_set v ≡ false
      → s to v
      → s id v

-- The wanted blocks that are neither exempt nor queued are solved; no set holds more than the
-- equations give it, nor more than the closed sets `s` have.
pub record IsPartial (c nb : ℕ) (e : Env) (wanted : List ℕ) (s : ℕ → ℕ → Type 0) (hot : ℕ → Bool)
    (st : Flow) : Type 0 where
  pub queue : IsQueue nb st
  pub ins : AreSets c nb st.live_in
  pub outs : AreSets c nb st.live_out
  pub grows : (id v : ℕ) → id < nb → mem st.live_in id v ≡ true → entry_of e st.live_in id v ≡ true
  pub within : (id v : ℕ) → id < nb → mem st.live_in id v ≡ true → s id v
  pub solved :
      (id : ℕ)
      → id < nb
      → elem id wanted ≡ true
      → is_present e id ≡ true
      → (hot id || elem id st.wl) ≡ false
      → IsSolved e st id

module _ {c nb : ℕ} (e : Env) (env : IsEnv c nb e) (wanted : List ℕ) (s : ℕ → ℕ → Type 0)
    (closed : IsClosed nb e s) where
  entry_mono :
      (a b : List VregSet) (id v : ℕ)
      → ((x : ℕ) → mem a x v ≡ true → mem b x v ≡ true)
      → entry_of e a id v ≡ true
      → entry_of e b id v ≡ true
  entry_mono a b id v h m = ground (arith, any_live_mono a b (succs_at e.cfg id) v h)

  module _ (st : Flow) (id : ℕ) (lt : id < nb)
      (z : IsPartial c nb e wanted s (λ x. id == x) st) where
    entry_within : (v : ℕ) → entry_of e st.live_in id v ≡ true → s id v
    entry_within v m = elim (Bool-cases (has (use_def_at e id).use_set v)) [
      | inl used ↦ closed.uses id v lt used
      | inr other ↦
          let (x, edge, live) = any_live-elem st.live_in (succs_at e.cfg id) v (ground arith) in
          closed.edges id x v lt edge (ground arith)
            (z.within x v (env.succs_inside id x edge) live)
    ]

    read_out :
        (x v : ℕ)
        → mem (set st.live_out id (out_at e env st id)) x v
          ≡ (if id == x then any_live st.live_in (succs_at e.cfg id) v else mem st.live_out x v)
    read_out x v =
        let (_, mo) = out_at_lem e env st id z.ins in
        ap (λ (t : VregSet). has t v)
          (get_or-set st.live_out id x (out_at e env st id) _ (omega (arith, z.outs.count)))
        ∙ if_either
            (λ (t : VregSet). has t v ≡ (
              if id == x then any_live st.live_in (succs_at e.cfg id) v else mem st.live_out x v))
            (id == x) (λ h. mo v ∙ rw h refl) (λ h. rw h refl)

    pub settled-IsPartial :
        equal (in_at e env st id) (set_at st.live_in id) ≡ true
        → IsPartial c nb e wanted s (λ x. false) (settled e env st id)
    settled-IsPartial eq =
        let (si, mi) = in_at_lem e env st id lt z.ins in
        let same =
          (equal_iff (in_at e env st id) (set_at st.live_in id) si (z.ins.sized id lt)).0 eq in
        record {
          queue = record {
            marks = z.queue.marks;
            inside = z.queue.inside;
            synced = z.queue.synced;
            distinct = z.queue.distinct;
          };
          ins = z.ins;
          outs =
              set-AreSets st.live_out id (out_at e env st id) z.outs lt
                (out_at_lem e env st id z.ins).0;
          grows = z.grows;
          within = z.within;
          solved = λ x l w p q. elim (Bool-cases (id == x)) [
            | inl here ↦
                let at : id ≡ x = ground arith in
                rw (sym at) (record {
                  at_entry = λ v. sym (same v) ∙ mi v;
                  at_exit = λ v. read_out id v ∙ rw ((==_iff id id).1 refl) refl;
                })
            | inr other ↦
                let old = z.solved x l w p (ground arith) in
                record {
                  at_entry = old.at_entry;
                  at_exit = λ v. read_out x v ∙ rw other (old.at_exit v);
                }
          ];
        }

    abbrev next_in : List VregSet
    next_in = set st.live_in id (in_at e env st id)

    read_in :
        (x v : ℕ)
        → mem next_in x v ≡ (if id == x then entry_of e st.live_in id v else mem st.live_in x v)
    read_in x v =
        let (_, mi) = in_at_lem e env st id lt z.ins in
        ap (λ (t : VregSet). has t v)
          (get_or-set st.live_in id x (in_at e env st id) _ (omega (arith, z.ins.count)))
        ∙ if_either
            (λ (t : VregSet).
              has t v ≡ (if id == x then entry_of e st.live_in id v else mem st.live_in x v))
            (id == x) (λ h. mi v ∙ rw h refl) (λ h. rw h refl)

    pub in_grows : (x v : ℕ) → mem st.live_in x v ≡ true → mem next_in x v ≡ true
    in_grows x v m = elim (Bool-cases (id == x)) [
      | inl here ↦
          let at : id ≡ x = ground arith in
          read_in x v ∙ rw here (z.grows id v lt (ap (λ t. mem st.live_in t v) at ∙ m))
      | inr other ↦ read_in x v ∙ rw other m
    ]

    abbrev base : Flow
    base = record st { live_in = next_in; live_out = set st.live_out id (out_at e env st id) }

    pub grown-IsQueued : IsQueued nb (preds_at e.cfg id) base (grown e env st id)
    grown-IsQueued =
        enqueue_all-IsQueued nb base (preds_at e.cfg id) (env.preds_inside id) (record {
          marks = z.queue.marks;
          inside = z.queue.inside;
          synced = z.queue.synced;
          distinct = z.queue.distinct;
        })

    -- A block that is not a predecessor of the changed one sees the sets that it saw before.
    unseen :
        (x v : ℕ)
        → elem x (preds_at e.cfg id) ≡ false
        → any_live next_in (succs_at e.cfg x) v ≡ any_live st.live_in (succs_at e.cfg x) v
    unseen x v no_pred =
        let no_succ = sym (env.mutual_edges id x lt) ∙ no_pred in
        any_live_congr next_in st.live_in (succs_at e.cfg x) v
          (λ y m. read_in y v ∙ rw (differs y (succs_at e.cfg x) m no_succ) refl)
      where
        differs : (y : ℕ) (ys : List ℕ) → elem y ys ≡ true → elem id ys ≡ false → (id == y) ≡ false
        differs y ys m n = elim (Bool-cases (id == y)) [
          | inr other ↦ other
          | inl here ↦ let at : id ≡ y = ground arith in let m' = ap (λ t. elem t ys) at ∙ m in cc
        ]

    base-IsSolved :
        (x : ℕ)
        → x < nb
        → elem x wanted ≡ true
        → is_present e x ≡ true
        → elem x st.wl ≡ false
        → elem x (preds_at e.cfg id) ≡ false
        → IsSolved e base x
    base-IsSolved x l w p q no_pred = elim (Bool-cases (id == x)) [
      | inl here ↦
          let at : id ≡ x = ground arith in
          let no_pred' = ap (λ t. elem t (preds_at e.cfg id)) at ∙ no_pred in
          rw (sym at) (record {
            at_entry = λ v. ground (arith, read_in id v, unseen id v no_pred');
            at_exit = λ v. ground (arith, read_out id v, unseen id v no_pred');
          })
      | inr other ↦
          let old = z.solved x l w p (ground arith) in
          record {
            at_entry = λ v. ground (arith, read_in x v, old.at_entry v, unseen x v no_pred);
            at_exit = λ v. ground (arith, read_out x v, old.at_exit v, unseen x v no_pred);
          }
    ]

    moved-IsSolved :
        (next : Flow) (x : ℕ)
        → next.live_in ≡ base.live_in
        → next.live_out ≡ base.live_out
        → IsSolved e base x
        → IsSolved e next x
    moved-IsSolved next x p q old = record {
      at_entry = λ v. rw p (old.at_entry v);
      at_exit = λ v. rw (p, q) (old.at_exit v);
    }

    pub grown-IsPartial : IsPartial c nb e wanted s (λ x. false) (grown e env st id)
    grown-IsPartial =
        let q = grown-IsQueued in
        record {
          queue = q.queue;
          ins = rw q.ins (
              set-AreSets st.live_in id (in_at e env st id) z.ins lt
                (in_at_lem e env st id lt z.ins).0);
          outs = rw q.outs (
              set-AreSets st.live_out id (out_at e env st id) z.outs lt
                (out_at_lem e env st id z.ins).0);
          grows = λ x v l m. rw q.ins (new_grows x v l (rw q.ins at m));
          within = λ x v l m. new_within x v l (rw q.ins at m);
          solved = λ x l w p n.
              moved-IsSolved (grown e env st id) x q.ins q.outs
                (base-IsSolved x l w p (ground (arith, q.gained x)) (ground (arith, q.gained x)));
        }
      where
        new_grows : (x v : ℕ) → x < nb → mem next_in x v ≡ true → entry_of e next_in x v ≡ true
        new_grows x v l m =
            entry_mono st.live_in next_in x v (λ y. in_grows y v)
              (elim (Bool-cases (id == x)) [
                | inl here ↦
                    let at : id ≡ x = ground arith in
                    ap (λ t. entry_of e st.live_in t v) (sym at) ∙ ground (arith, read_in x v)
                | inr other ↦ z.grows x v l (ground (arith, read_in x v))
              ])

        new_within : (x v : ℕ) → x < nb → mem next_in x v ≡ true → s x v
        new_within x v l m = elim (Bool-cases (id == x)) [
          | inl here ↦
              let at : id ≡ x = ground arith in
              subst (λ t. s t v) at (entry_within v (ground (arith, read_in x v)))
          | inr other ↦ z.within x v l (ground (arith, read_in x v))
        ]
