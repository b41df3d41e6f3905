-- ===== src/Tests/Lifecycles.antt =====
-- Runs of the counts of events.
use alice_brain_hermes.Prelude.{◌≡◌, refl, [], ◌∷◌, ok, some, arith}
use alice_brain_hermes.Json.{end}
use alice_brain_hermes.Events.{EventEnvelope}
use alice_brain_hermes.Lifecycle.{Lifecycle, count_event}
use alice_brain_hermes.Lifecycle.Evaluation.{lifecycle_evaluation}
use alice_brain_hermes.Lifecycle.Counting.{IsTallied, Counts, count_event-IsTallied}
use alice_brain_hermes.Tests.Events.{event}

abbrev born : Lifecycle
born = record {
  raw_lifecycle_counts = record { event_type = "brain.created"; count = 1 } ∷ [];
  raw_lifecycle_keys = record { total = 1; evicted = 0 };
  raw_lifecycle_events_evicted = 0;
  reduced_event_count = 1;
  last_sequence = 1;
}

born-IsTallied : IsTallied born
born-IsTallied = record {
  events = refl;
  keys = refl;
  bounded = omega arith;
  distinct = refl;
  sequenced = omega arith;
}

abbrev named : EventEnvelope
named = record (event "e2" "brain.created" end) { sequence = some 2 }

abbrev twice : Lifecycle
twice = record born {
  raw_lifecycle_counts = record { event_type = "brain.created"; count = 2 } ∷ [];
  reduced_event_count = 2;
  last_sequence = 2;
}

counted_twice : count_event born named ≡ ok twice
unfolding lifecycle_evaluation
counted_twice = refl

count_event-IsTallied_example : Counts born named
count_event-IsTallied_example = count_event-IsTallied born named born-IsTallied
