-- ===== src/Assembler/Symbols/Intern.antt =====
-- The table as a map from names to indices.
use compilador.Prelude.{
  ℕ, zero, suc, ◌+◌, ◌^◌, ◌<◌, ◌≡◌, refl, ◌∙◌, ap, sym, subst, true, false, List, Option, none,
  some, arith, ◌==◌, leb, if◌then◌else◌, get_or, set, length, length-set, get_or-set,
  get_or-set_field, if_either, bytes_eq, bytes_eq_iff, Bool-cases, inl, inr, Returns,
}
use compilador.Prelude.Int.{ℤ}
use compilador.Assembler.Symbols.{
  SymbolEntry, SymbolTable, blank, entry_at, hash, max_name_len, find_from, find, insert_symbol,
  found_or, add_symbol, get_symbol_name, get_symbol_value, set_symbol_value,
}
use compilador.Assembler.Symbols.Chains.{
  IsTable, IsInserted, find_from-fuel, find_from-agree, insert_symbol-IsInserted,
}

-- A name that is there leads to an entry of that name.
find_from-name :
    (t : SymbolTable) (name : List ℕ) (f index i : ℕ)
    → find_from f t name index ≡ some i
    → (entry_at t i).name ≡ name
unfolding find_from
find_from-name t name zero index i e = absurd cc
find_from-name t name (suc f) index i e = elim (Bool-cases (index == 0)) [
  | inl none_left ↦ let e' = rw none_left at e in absurd cc
  | inr more ↦ elim (Bool-cases (bytes_eq (entry_at t index).name name)) [
    | inl hit ↦
        let e' = rw (more, hit) at e in
        let same : (entry_at t index).name ≡ name =
          (bytes_eq_iff (entry_at t index).name name).0 hit in
        let at : index ≡ i = cc in subst (λ k. (entry_at t k).name ≡ name) at same
    | inr miss ↦ find_from-name t name f (entry_at t index).link i (rw (more, miss) at e)
  ]
]

-- The first step of the search after an insertion.
find-start :
    (t u : SymbolTable) (name other : List ℕ)
    → IsInserted t name u
    → find u other
      ≡ find_from
          (suc t.next_free)
          u
          other
          (if hash name == hash other then t.next_free else get_or t.buckets (hash other) 0)
find-start t u name other ins =
    let next : u.next_free ≡ suc t.next_free = omega (arith, ins.next) in
    ap (λ k. find_from k u other (get_or u.buckets (hash other) 0)) next
    ∙ ap (find_from (suc t.next_free) u other) (ins.heads_eq (hash other))

find-inserted :
    (t u : SymbolTable) (name other : List ℕ)
    → IsTable t
    → IsInserted t name u
    → bytes_eq name other ≡ false
    → find u other ≡ find t other
unfolding find_from
find-inserted t u name other z ins differ =
    find-start t u name other ins ∙ elim (Bool-cases (hash name == hash other)) [
      | inl same ↦
          let e : hash name ≡ hash other = ground arith in
          let used : (t.next_free == 0) ≡ false = ground (arith, z.first) in
          let miss : bytes_eq (entry_at u t.next_free).name other ≡ false =
            ap (λ n. bytes_eq n other) ins.own_name ∙ differ in
          rw (same, used, miss)
            (ap (find_from t.next_free u other) (ins.own_link ∙ ap (λ h. get_or t.buckets h 0) e)
              ∙ find_from-agree t u other z ins.keeps t.next_free _ (z.heads (hash other)))
      | inr apart ↦
          let head = get_or t.buckets (hash other) 0 in
          let below = z.heads (hash other) in
          ap (λ b. find_from (suc t.next_free) u other (if b then t.next_free else head)) apart
          ∙ find_from-agree t u other z ins.keeps (suc t.next_free) head below
          ∙ find_from-fuel t other z (suc t.next_free) t.next_free head (omega arith) below below
    ]

find-inserted_self :
    (t u : SymbolTable) (name : List ℕ)
    → IsTable t
    → IsInserted t name u
    → find u name ≡ some t.next_free
unfolding find_from
find-inserted_self t u name z ins =
    let same : (hash name == hash name) ≡ true = ground arith in
    let used : (t.next_free == 0) ≡ false = ground (arith, z.first) in
    let hit : bytes_eq (entry_at u t.next_free).name name ≡ true =
      (bytes_eq_iff (entry_at u t.next_free).name name).1 ins.own_name in
    find-start t u name name ins ∙ rw (same, used, hit) refl

add_symbol-found_or :
    (t : SymbolTable) (name : List ℕ) (r : Option ℕ)
    → t.ready ≡ true
    → find t name ≡ r
    → add_symbol t name ≡ found_or r t (insert_symbol t name (hash name))
unfolding add_symbol
add_symbol-found_or t name r on e =
    let inserted = insert_symbol t name (hash name) in
    ap (λ b. if b then found_or (find t name) t inserted else none) on
    ∙ ap (λ f. found_or f t inserted) e

-- `i` is the index of the name in `u`, the table after `t`.
pub record IsInterned (t : SymbolTable) (name : List ℕ) (i : ℕ) (u : SymbolTable) : Type 0 where
  pub table : IsTable u
  pub found : find u name ≡ some i
  pub own_name : get_symbol_name u i ≡ name
  pub others : (other : List ℕ) → bytes_eq name other ≡ false → find u other ≡ find t other
  pub stable : (j : ℕ) → find t name ≡ some j → (i ≡ j) × (u ≡ t)
  pub fresh : find t name ≡ none → i ≡ t.next_free

-- In a well-formed table with room in `uint16_t`, the addition of a name of at most 31 bytes ends
-- with an index under which the table holds that name and the search finds it. A name that is there
-- keeps its index and the table is unchanged; a new one gets the next free index, and the search for
-- any other name is as before. The table stays well formed, with the next free index inside the array.
pub add_symbol-Returns :
    (t : SymbolTable) (name : List ℕ)
    → IsTable t
    → length name < max_name_len
    → t.tab_size + 61 < 2 ^ 16
    → Returns (add_symbol t name) λ r. IsInterned t name r.0 r.1
unfolding found_or get_symbol_name
add_symbol-Returns t name z fits wide = go (find t name) refl
  where
    go :
        (r : Option ℕ)
        → find t name ≡ r
        → Returns (add_symbol t name) λ r. IsInterned t name r.0 r.1
    go (some i) e = (
      (i, t),
      add_symbol-found_or t name (some i) z.ready e,
      record {
        table = z;
        found = e;
        own_name = find_from-name t name t.next_free (get_or t.buckets (hash name) 0) i e;
        others = λ other h. refl;
        stable = λ j h. (cc, refl);
        fresh = λ h. absurd cc;
      },
    )
    go none e =
        let ((i, u), run, (at, ins)) = insert_symbol-IsInserted t name z fits wide in
        (
          (i, u),
          add_symbol-found_or t name none z.ready e ∙ run,
          record {
            table = ins.table;
            found = find-inserted_self t u name z ins ∙ ap some (sym at);
            own_name = ap (λ k. (entry_at u k).name) at ∙ ins.own_name;
            others = λ other h. find-inserted t u name other z ins h;
            stable = λ j h. absurd cc;
            fresh = λ h. at;
          },
        )

find_from-congr :
    (t u : SymbolTable) (name : List ℕ)
    → ((i : ℕ) → (entry_at u i).link ≡ (entry_at t i).link)
    → ((i : ℕ) → (entry_at u i).name ≡ (entry_at t i).name)
    → (f index : ℕ) → find_from f u name index ≡ find_from f t name index
unfolding find_from
find_from-congr t u name links names zero index = refl
find_from-congr t u name links names (suc f) index =
    ap
      (λ n.
        if index == 0
        then none
        else if bytes_eq n name
        then some index
        else find_from f u name (entry_at u index).link)
      (names index)
    ∙ ap
        (λ r.
          if index == 0
          then none
          else if bytes_eq (entry_at t index).name name
          then some index
          else r)
        (ap (find_from f u name) (links index)
          ∙ find_from-congr t u name links names f (entry_at t index).link)

-- In a well-formed table, a value set under an index in use is the one read back, the values under
-- the other indices, the names and the search are as before, and the table stays well formed.
pub set_symbol_value-Returns :
    (t : SymbolTable) (index : ℕ) (value : ℤ)
    → IsTable t
    → index < t.next_free
    → Returns (set_symbol_value t index value) λ r.
      (r.0 ≡ index)
      × IsTable r.1
      × ((i : ℕ) → get_symbol_value r.1 i ≡ (if index == i then value else get_symbol_value t i))
      × ((i : ℕ) → get_symbol_name r.1 i ≡ get_symbol_name t i)
      × ((name : List ℕ) → find r.1 name ≡ find t name)
unfolding set_symbol_value get_symbol_value get_symbol_name
set_symbol_value-Returns t index value z used =
    let entry : SymbolEntry = record (entry_at t index) { value = value } in
    let u : SymbolTable = record t { entries = set t.entries index entry } in
    let room : index < length t.entries = omega (arith, z.size, z.room) in
    let inside : leb t.tab_size index ≡ false = ground (arith, z.room) in
    let links = λ (i : ℕ).
      get_or-set_field (λ (e : SymbolEntry). e.link) t.entries index i entry blank room refl in
    let names = λ (i : ℕ).
      get_or-set_field (λ (e : SymbolEntry). e.name) t.entries index i entry blank room refl in
    (
      (index, u),
      ap (λ b. if b then (if leb t.tab_size index then none else some (index, u)) else none) z.ready
          ∙ rw inside refl,
      (
        refl,
        record {
          ready = z.ready;
          size = length-set t.entries index entry ∙ z.size;
          width = z.width;
          first = z.first;
          room = z.room;
          heads = z.heads;
          links = λ i le lt. omega (arith, z.links i le lt, links i);
        },
        λ i.
            ap (λ (e : SymbolEntry). e.value) (get_or-set t.entries index i entry blank room)
            ∙ if_either
                (λ (e : SymbolEntry).
                  e.value ≡ (if index == i then value else (entry_at t i).value))
                (index == i) (λ h. rw h refl) (λ h. rw h refl),
        names,
        λ name. find_from-congr t u name links names t.next_free (get_or t.buckets (hash name) 0),
      ),
    )
