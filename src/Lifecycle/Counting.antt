-- ===== src/Lifecycle/Counting.antt =====
-- What count_event does to the counts.
use alice_brain_hermes.Prelude.{
  ℕ, ◌+◌, ◌≤◌, ◌<◌, String, ◌≡◌, ◌⊎◌, refl, true, false, Option, none, some, List, [], ◌∷◌, length,
  leb, str_mem, is_unique, arith, Bool-cases, Option-cases, inl, inr, ok, err, domain_invariant,
}
use alice_brain_hermes.Events.{EventEnvelope}
use alice_brain_hermes.Memory.Counted.{advance-eq}
use alice_brain_hermes.Lifecycle.{
  Count, Lifecycle, Room, types_of, first_key, bump, sort_counts, evict, make_room, follows,
  last_of, counted_known, count_type, count_event, max_raw_lifecycle_keys,
}
use alice_brain_hermes.Lifecycle.Tally.{
  total_of, bump-total, bump-length, bump_unique, sort_counts-total, sort_counts-length,
  sort_counts_unique, first_key-mem, first_key-some, pop-total, pop-length, pop_unique, pop-mem,
}

-- The counts with the evicted ones make up the reduced events, the counter of the keys is exact, the keys are distinct
-- and within their capacity, and no more events are persisted than reduced.
pub record IsTallied (l : Lifecycle) : Type 0 where
  pub events :
      total_of l.raw_lifecycle_counts + l.raw_lifecycle_events_evicted ≡ l.reduced_event_count
  pub keys :
      l.raw_lifecycle_keys.total ≡ l.raw_lifecycle_keys.evicted + length l.raw_lifecycle_counts
  pub bounded : length l.raw_lifecycle_counts ≤ max_raw_lifecycle_keys
  pub distinct : is_unique (types_of l.raw_lifecycle_counts) ≡ true
  pub sequenced : l.last_sequence ≤ l.reduced_event_count

-- What the eviction of a key leaves.
record IsRoom (counts : List Count) (room : Room) : Type 0 where
  same_total : room.events_evicted + total_of room.counts ≡ total_of counts
  same_length : length room.counts + room.keys_evicted ≡ length counts
  has_room : length counts ≤ max_raw_lifecycle_keys → length room.counts < max_raw_lifecycle_keys
  still_distinct : is_unique (types_of counts) ≡ true → is_unique (types_of room.counts) ≡ true

make_room-unknown :
    (counts : List Count) (s : String)
    → str_mem s (types_of counts) ≡ false
    → str_mem s (types_of (make_room counts).counts) ≡ false
unfolding make_room
make_room-unknown counts s h = elim (Bool-cases (leb max_raw_lifecycle_keys (length counts))) [
  | inl full ↦ elim (Option-cases (first_key counts)) [
    | inl none_there ↦ rw (full, none_there) h
    | inr (key, found) ↦ rw (full, found) (ground (arith, pop-mem s key counts))
  ]
  | inr free ↦ rw free h
]

evict-IsRoom :
    (counts : List Count) (key : String)
    → str_mem key (types_of counts) ≡ true
    → IsRoom counts (evict counts (some key))
evict-IsRoom counts key h = record {
  same_total = pop-total key counts;
  same_length = pop-length key counts h;
  has_room = λ b. omega (arith, pop-length key counts h);
  still_distinct = pop_unique key counts;
}

make_room-IsRoom : (counts : List Count) → IsRoom counts (make_room counts)
unfolding make_room
make_room-IsRoom [] = record {
  same_total = omega arith;
  same_length = omega arith;
  has_room = λ b. omega arith;
  still_distinct = λ u. u;
}
make_room-IsRoom (c ∷ rest) = elim (Bool-cases (leb max_raw_lifecycle_keys (length (c ∷ rest)))) [
  | inl full ↦
      let (key, found) = first_key-some c rest in
      rw (full, found) (evict-IsRoom (c ∷ rest) key (first_key-mem (c ∷ rest) key found))
  | inr free ↦ rw free (record {
    same_total = omega arith;
    same_length = omega arith;
    has_room = λ b. ground arith;
    still_distinct = λ u. u;
  })
]

last_of-bounded :
    (sequence : Option ℕ) (last reduced : ℕ)
    → follows sequence last ≡ true
    → last ≤ reduced
    → last_of sequence last ≤ reduced + 1
last_of-bounded none last reduced f h = omega arith
last_of-bounded (some n) last reduced f h = ground arith

-- An event of a type that is counted already.
counted_known-IsTallied :
    (l : Lifecycle) (e : EventEnvelope)
    → IsTallied l
    → str_mem e.event_type (types_of l.raw_lifecycle_counts) ≡ true
    → follows e.sequence l.last_sequence ≡ true
    → IsTallied (counted_known l e)
counted_known-IsTallied l e h known next =
    let counts = l.raw_lifecycle_counts in
    let bumped = bump e.event_type counts in
    let same_length : length (sort_counts bumped) ≡ length counts =
      ground (arith, sort_counts-length bumped, bump-length e.event_type counts) in
    record {
      events = omega (arith, h.events, sort_counts-total bumped, bump-total e.event_type counts);
      keys = omega (arith, h.keys, same_length);
      bounded = omega (arith, h.bounded, same_length);
      distinct = sort_counts_unique bumped (bump_unique e.event_type counts h.distinct);
      sequenced = last_of-bounded e.sequence l.last_sequence l.reduced_event_count next h.sequenced;
    }

-- What an event of a new type makes of the counts, with the room that it finds.
abbrev with_room : Lifecycle → EventEnvelope → Room → Lifecycle
with_room l e room = record {
  raw_lifecycle_counts = sort_counts (bump e.event_type room.counts);
  raw_lifecycle_keys = record {
    total = l.raw_lifecycle_keys.total + 1;
    evicted = l.raw_lifecycle_keys.evicted + room.keys_evicted;
  };
  raw_lifecycle_events_evicted = l.raw_lifecycle_events_evicted + room.events_evicted;
  reduced_event_count = l.reduced_event_count + 1;
  last_sequence = last_of e.sequence l.last_sequence;
}

with_room-IsTallied :
    (l : Lifecycle) (e : EventEnvelope) (room : Room)
    → IsTallied l
    → IsRoom l.raw_lifecycle_counts room
    → str_mem e.event_type (types_of room.counts) ≡ false
    → follows e.sequence l.last_sequence ≡ true
    → IsTallied (with_room l e room)
with_room-IsTallied l e room h r unknown next =
    let bumped = bump e.event_type room.counts in
    let longer : length (sort_counts bumped) ≡ length room.counts + 1 =
      ground (arith, sort_counts-length bumped, bump-length e.event_type room.counts) in
    record {
      events = omega (
        arith,
        h.events,
        r.same_total,
        sort_counts-total bumped,
        bump-total e.event_type room.counts,
      );
      keys = omega (arith, h.keys, longer, r.same_length);
      bounded = omega (arith, r.has_room h.bounded, longer);
      distinct =
          sort_counts_unique bumped
            (bump_unique e.event_type room.counts (r.still_distinct h.distinct));
      sequenced = last_of-bounded e.sequence l.last_sequence l.reduced_event_count next h.sequenced;
    }

count_type_new :
    (l : Lifecycle) (e : EventEnvelope)
    → IsTallied l
    → str_mem e.event_type (types_of l.raw_lifecycle_counts) ≡ false
    → count_type l e ≡ ok (with_room l e (make_room l.raw_lifecycle_counts))
unfolding count_type
count_type_new l e h unknown =
    let room = make_room l.raw_lifecycle_counts in
    let r = make_room-IsRoom l.raw_lifecycle_counts in
    let room_left : length room.counts + room.keys_evicted ≡ length l.raw_lifecycle_counts =
      r.same_length in
    rw
      (
        unknown,
        advance-eq l.raw_lifecycle_keys 1 room.keys_evicted (omega (arith, h.keys, room_left)),
      )
      refl

count_type_lem :
    (l : Lifecycle) (e : EventEnvelope)
    → IsTallied l
    → follows e.sequence l.last_sequence ≡ true
    → (m : Lifecycle) × (count_type l e ≡ ok m)
      × IsTallied m
      × (m.reduced_event_count ≡ l.reduced_event_count + 1)
      × (m.last_sequence ≡ last_of e.sequence l.last_sequence)
unfolding count_type
count_type_lem l e h next =
    elim (Bool-cases (str_mem e.event_type (types_of l.raw_lifecycle_counts))) [
      | inl known ↦
          (counted_known l e, rw known refl, counted_known-IsTallied l e h known next, refl, refl)
      | inr unknown ↦
          let room = make_room l.raw_lifecycle_counts in
          let r = make_room-IsRoom l.raw_lifecycle_counts in
          (
            with_room l e room,
            count_type_new l e h unknown,
            with_room-IsTallied l e room h r
                (make_room-unknown l.raw_lifecycle_counts e.event_type unknown) next,
            refl,
            refl,
          )
    ]

-- How count_event answers an event: it refuses it as out of sequence, or counts it.
abbrev pub Counts : Lifecycle → EventEnvelope → Type 0
Counts l e =
    ((follows e.sequence l.last_sequence ≡ false) × (count_event l e ≡ err domain_invariant))
    ⊎ ((m : Lifecycle) × (count_event l e ≡ ok m)
        × IsTallied m
        × (m.reduced_event_count ≡ l.reduced_event_count + 1)
        × (m.last_sequence ≡ last_of e.sequence l.last_sequence)
        × (follows e.sequence l.last_sequence ≡ true))

-- From a tally that holds, an event is counted if its sequence is absent or follows the last one, and refused if not;
-- when it is counted the tally still holds, one event more is reduced, and its sequence is the last.
pub count_event-IsTallied : (l : Lifecycle) (e : EventEnvelope) → IsTallied l → Counts l e
unfolding count_event
count_event-IsTallied l e h = elim (Bool-cases (follows e.sequence l.last_sequence)) [
  | inl next ↦
      let (m, counted, tallied, more, last) = count_type_lem l e h next in
      inr (m, rw next counted, tallied, more, last, next)
  | inr apart ↦ inl (apart, rw apart refl)
]
