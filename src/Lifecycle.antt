-- ===== src/Lifecycle.antt =====
-- The counts of reduced events by type, and the sequence of persisted events: the first steps of reduce_state
-- (src/alice_brain_hermes/core/reducer.py) on the fields of BrainState and WorkingSetState (core/state.py).
pub mod Evaluation
pub mod Tally
pub mod Counting
use alice_brain_hermes.Prelude.{
  ℕ, ◌+◌, String, Bool, true, false, not, Option, none, some, List, [], ◌∷◌, map, leb, ◌==◌, str_eq,
  str_mem, length, if◌then◌else◌, Result, ok, domain_invariant, guard, ◌>>=◌, ◌>>◌,
}
use alice_brain_hermes.Text.{str_ltb}
use alice_brain_hermes.Events.{EventEnvelope}
use alice_brain_hermes.Memory.{WorkingSetCounter, advance}

abbrev pub max_raw_lifecycle_keys : ℕ
max_raw_lifecycle_keys = 256

-- An entry of `raw_lifecycle_counts`.
pub record Count : Type 0 where
  pub event_type : String
  pub count : ℕ

pub record Lifecycle : Type 0 where
  pub raw_lifecycle_counts : List Count
  pub raw_lifecycle_keys : WorkingSetCounter
  pub raw_lifecycle_events_evicted : ℕ
  pub reduced_event_count : ℕ
  pub last_sequence : ℕ

abbrev pub types_of : List Count → List String
types_of = map (λ c. c.event_type)

-- `sorted(counts)[0]`
pub first_key : List Count → Option String
first_key [] = none
first_key (c ∷ rest) = elim (first_key rest) [
  | none ↦ some c.event_type
  | some key ↦ if str_ltb key c.event_type then some key else some c.event_type
]

-- `counts.pop(key)`: the count, and what is left
pub pop : String → List Count → ℕ × List Count
pop key [] = (0, [])
pop key (c ∷ rest) =
    let popped = pop key rest in
    if str_eq c.event_type key then (c.count, rest) else (popped.0, c ∷ popped.1)

-- `counts[key] = counts.get(key, 0) + 1`
pub bump : String → List Count → List Count
bump key [] = record { event_type = key; count = 1 } ∷ []
bump key (c ∷ rest) =
    let bumped = bump key rest in
    if str_eq c.event_type key then record c { count = c.count + 1 } ∷ rest else c ∷ bumped

pub insert_count : Count → List Count → List Count
insert_count c [] = c ∷ []
insert_count c (d ∷ rest) =
    let after = insert_count c rest in
    if str_ltb d.event_type c.event_type then d ∷ after else c ∷ d ∷ rest

-- `sorted(counts.items())`
pub sort_counts : List Count → List Count
unfolding insert_count
sort_counts [] = []
sort_counts (c ∷ rest) = insert_count c (sort_counts rest)

-- The counts with room for a key, the events and the keys evicted for it.
pub record Room : Type 0 where
  pub counts : List Count
  pub events_evicted : ℕ
  pub keys_evicted : ℕ

abbrev pub evict : List Count → Option String → Room
evict counts none = record { counts = counts; events_evicted = 0; keys_evicted = 0 }
evict counts (some key) =
    let popped = pop key counts in
    record { counts = popped.1; events_evicted = popped.0; keys_evicted = 1 }

-- Makes room where the capacity is reached.
pub make_room : List Count → Room
unfolding first_key pop
make_room counts =
    evict counts (if leb max_raw_lifecycle_keys (length counts) then first_key counts else none)

abbrev pub follows : Option ℕ → ℕ → Bool
follows none last = true
follows (some sequence) last = sequence == last + 1

abbrev pub last_of : Option ℕ → ℕ → ℕ
last_of none last = last
last_of (some sequence) last = sequence

-- What the event's type makes of the counts and of the counter of their keys.
abbrev counted_new : Lifecycle → EventEnvelope → Room → WorkingSetCounter → Result Lifecycle
counted_new l event room keys = ok (record {
  raw_lifecycle_counts = sort_counts (bump event.event_type room.counts);
  raw_lifecycle_keys = keys;
  raw_lifecycle_events_evicted = l.raw_lifecycle_events_evicted + room.events_evicted;
  reduced_event_count = l.reduced_event_count + 1;
  last_sequence = last_of event.sequence l.last_sequence;
})

abbrev counted_known : Lifecycle → EventEnvelope → Lifecycle
counted_known l event = record {
  raw_lifecycle_counts = sort_counts (bump event.event_type l.raw_lifecycle_counts);
  raw_lifecycle_keys = l.raw_lifecycle_keys;
  raw_lifecycle_events_evicted = l.raw_lifecycle_events_evicted;
  reduced_event_count = l.reduced_event_count + 1;
  last_sequence = last_of event.sequence l.last_sequence;
}

count_type : Lifecycle → EventEnvelope → Result Lifecycle
unfolding make_room bump sort_counts
count_type l event =
    if str_mem event.event_type (types_of l.raw_lifecycle_counts)
    then ok (counted_known l event)
    else (let room = make_room l.raw_lifecycle_counts in
        advance l.raw_lifecycle_keys 1 room.keys_evicted >>= counted_new l event room)

pub count_event : Lifecycle → EventEnvelope → Result Lifecycle
unfolding count_type
count_event l event = do
  guard (follows event.sequence l.last_sequence) domain_invariant
  count_type l event
