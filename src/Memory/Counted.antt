-- ===== src/Memory/Counted.antt =====
-- The counters of a bounded working set tell how many items are retained, and admission cannot fail.
use mathlib.Core.Path.{subst}
use alice_brain_hermes.Prelude.{
  ℕ, ◌+◌, ◌-◌, ◌≤◌, String, ◌≡◌, refl, true, List, [], ◌∷◌, ◌++◌, length, str_eq, str_mem,
  is_unique, arith, Bool-cases, inl, inr, if◌then◌else◌, ok, domain_invariant, rewrap, >>=-eq-ok,
}
use alice_brain_hermes.Bounded.{
  keys, upsert, upsert-bounded, upsert-distinct, upsert-last, length-upsert,
}
use alice_brain_hermes.Events.{EventEnvelope}
use alice_brain_hermes.Workspace.Reduce.{Conversions}
use alice_brain_hermes.Memory.{
  Collection, WorkingSetCounter, MemoryRecord, ThoughtBranch, admitted_by, admit, advance,
  validate_counter, max_memory_records, max_thought_branches, simulation_branch, reduce_memories,
  create_simulation, read_memory,
}

-- A counter advances exactly where the evictions stay within the admissions.
pub advance-eq :
    (c : WorkingSetCounter) (more gone : ℕ)
    → c.evicted + gone ≤ c.total + more
    → advance c more gone ≡ ok (record { total = c.total + more; evicted = c.evicted + gone })
unfolding advance validate_counter
advance-eq c more gone h = ground arith

-- The counter is the number of items ever admitted less those evicted, which are retained: distinct and bounded.
pub record IsCounted {A : Type 0} (key : A → String) (capacity : ℕ) (c : Collection A)
    : Type 0 where
  pub exact : c.counter.total ≡ c.counter.evicted + length c.items
  pub bounded : length c.items ≤ capacity
  pub distinct : is_unique (keys key c.items) ≡ true

module _ {A : Type 0} (key : A → String) (capacity : ℕ) where
  admitted_by-mem :
      (id : String) (items : List A)
      → admitted_by key id items ≡ (if str_mem id (keys key items) then 0 else 1)
  admitted_by-mem id [] = refl
  admitted_by-mem id (x ∷ xs) = ground (arith, admitted_by-mem id xs)

  -- The tuple and the counter after the admission of an item.
  abbrev admitted : Collection A → A → Collection A
  admitted c item =
      let items = upsert key capacity c.items item in
      let more = admitted_by key (key item) c.items in
      record {
        items = items;
        counter = record {
          total = c.counter.total + more;
          evicted = c.counter.evicted + (length c.items + more - length items);
        };
      }

  admitted-IsCounted :
      (c : Collection A) (item : A)
      → IsCounted key capacity c
      → IsCounted key capacity (admitted c item)
  admitted-IsCounted c item h = record {
    exact = ground (
      arith,
      h.exact,
      h.bounded,
      length-upsert key capacity c.items item h.distinct,
      admitted_by-mem (key item) c.items,
    );
    bounded = upsert-bounded key capacity c.items item;
    distinct = upsert-distinct key capacity c.items item h.distinct;
  }

  admit-eq :
      (c : Collection A) (item : A)
      → IsCounted key capacity c
      → admit key capacity c item ≡ ok (admitted c item)
  unfolding admit advance validate_counter
  admit-eq c item h = ground (arith, (admitted-IsCounted c item h).exact)

  admit-IsCounted :
      (c d : Collection A) (item : A)
      → IsCounted key capacity c
      → admit key capacity c item ≡ ok d
      → IsCounted key capacity d
  admit-IsCounted c d item h p =
      let same : admitted c item ≡ d = ground (arith, admit-eq c item h) in
      subst (IsCounted key capacity) same (admitted-IsCounted c item h)

abbrev pub memory_key : MemoryRecord → String
memory_key m = m.memory_id

abbrev pub branch_key : ThoughtBranch → String
branch_key b = b.branch_id

module _ (py : Conversions) where
  -- An accepted event keeps the memories distinct and within their capacity, and their counter exact: the memories
  -- ever admitted are those evicted and those retained.
  pub reduce_memories-IsCounted :
      (c d : Collection MemoryRecord) (e : EventEnvelope)
      → IsCounted memory_key max_memory_records c
      → reduce_memories py c e ≡ ok d
      → IsCounted memory_key max_memory_records d
  unfolding reduce_memories
  reduce_memories-IsCounted c d e h p = elim (Bool-cases (str_eq e.event_type "memory.recorded")) [
    | inl is ↦
        let (m, _, q) =
          >>=-eq-ok (rewrap domain_invariant (read_memory py e.payload))
            (admit memory_key max_memory_records c) (rw is at p) in
        admit-IsCounted memory_key max_memory_records c d m h q
    | inr differs ↦
        let same : c ≡ d = ground arith in subst (IsCounted memory_key max_memory_records) same h
  ]

  -- A created simulation that is accepted keeps the thought branches distinct and within their capacity, and their
  -- counter exact: the branches ever admitted are those evicted and those retained.
  pub create_simulation-IsCounted :
      (c d : Collection ThoughtBranch) (e : EventEnvelope)
      → IsCounted branch_key max_thought_branches c
      → create_simulation py c e ≡ ok d
      → IsCounted branch_key max_thought_branches d
  unfolding create_simulation
  create_simulation-IsCounted c d e h p =
      let (b, _, q) =
        >>=-eq-ok (simulation_branch py e.payload) (admit branch_key max_thought_branches c) p in
      admit-IsCounted branch_key max_thought_branches c d b h q

  -- A created simulation whose branch can be read is admitted whatever the space holds: the counter does not refuse it,
  -- the branch is there as the newest one, and no other has its ID.
  pub simulations_admitted :
      (c : Collection ThoughtBranch) (e : EventEnvelope) (b : ThoughtBranch)
      → IsCounted branch_key max_thought_branches c
      → simulation_branch py e.payload ≡ ok b
      → (d : Collection ThoughtBranch) × (create_simulation py c e ≡ ok d)
        × ((older : List ThoughtBranch) × (d.items ≡ older ++ b ∷ []))
        × (is_unique (keys branch_key d.items) ≡ true)
  unfolding create_simulation
  simulations_admitted c e b h reads = (
    admitted branch_key max_thought_branches c b,
    rw reads (admit-eq branch_key max_thought_branches c b h),
    upsert-last branch_key max_thought_branches c.items b (omega arith),
    (admitted-IsCounted branch_key max_thought_branches c b h).distinct,
  )
