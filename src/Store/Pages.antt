-- ===== src/Store/Pages.antt =====
-- The pages of events (runtime/store.py, list_events and iter_events).
use alice_brain_hermes.Prelude.{
  ℕ, zero, suc, String, Bool, ◌&&◌, Option, none, some, List, [], ◌∷◌, ◌++◌, leb, ltb,
  if◌then◌else◌, Result, ok, err, value_error, guard, ◌>>=◌, ◌>>◌,
}
use alice_brain_hermes.Ids.{validate_id}
use alice_brain_hermes.Events.{EventEnvelope}
use alice_brain_hermes.Store.{Row, EventStore, Encoding, decode_event, of_brain}

abbrev pub max_page_size : ℕ
max_page_size = 10000

-- `AND sequence > ?`
abbrev pub after : ℕ → List Row → List Row
after n [] = []
after n (r ∷ rest) = let later = after n rest in if ltb n r.sequence then r ∷ later else later

-- `ORDER BY sequence ASC`
abbrev pub insert_ordered : Row → List Row → List Row
insert_ordered r [] = r ∷ []
insert_ordered r (s ∷ rest) =
    let later = insert_ordered r rest in
    if ltb s.sequence r.sequence then s ∷ later else r ∷ s ∷ rest

abbrev pub ordered : List Row → List Row
ordered [] = []
ordered (r ∷ rest) = insert_ordered r (ordered rest)

-- `LIMIT ?`
abbrev pub take : ℕ → List Row → List Row
take zero rows = []
take (suc n) [] = []
take (suc n) (r ∷ rest) = r ∷ take n rest

abbrev pub decoded : Encoding → List Row → Result (List EventEnvelope)
decoded c [] = ok []
decoded c (r ∷ rest) = do e ← decode_event c r; es ← decoded c rest; ok (e ∷ es)

-- `_validate_page`, of numbers
abbrev pub is_page_size : ℕ → Bool
is_page_size limit = leb 1 limit && leb limit max_page_size

-- `list_events`
unfoldable pub list_events : Encoding → EventStore → String → ℕ → ℕ → Result (List EventEnvelope)
list_events c s id cursor limit = do
  validate_id id
  guard (is_page_size limit) value_error
  decoded c (take limit (ordered (after cursor (of_brain id s.events))))

-- `page[-1].sequence`
abbrev pub last_sequence : List EventEnvelope → Option ℕ
last_sequence [] = none
last_sequence (e ∷ []) = e.sequence
last_sequence (e ∷ f ∷ rest) = last_sequence (f ∷ rest)

-- `page[-1].sequence or cursor`
abbrev pub or_cursor : Option ℕ → ℕ → ℕ
or_cursor none cursor = cursor
or_cursor (some zero) cursor = cursor
or_cursor (some (suc n)) cursor = suc n

abbrev pub yielded : List EventEnvelope → Result (List EventEnvelope) → Result (List EventEnvelope)
yielded page (ok rest) = ok (page ++ rest)
yielded page (err e) = err e

abbrev pub map_some :
    (Result (List EventEnvelope) → Result (List EventEnvelope))
    → Option (Result (List EventEnvelope))
    → Option (Result (List EventEnvelope))
map_some f none = none
map_some f (some r) = some (f r)

-- One page, and what follows it.
abbrev pub continued :
    (ℕ → Option (Result (List EventEnvelope)))
    → ℕ
    → Result (List EventEnvelope)
    → Option (Result (List EventEnvelope))
continued next cursor (err e) = some (err e)
continued next cursor (ok []) = some (ok [])
continued next cursor (ok (e ∷ rest)) =
    map_some (yielded (e ∷ rest)) (next (or_cursor (last_sequence (e ∷ rest)) cursor))

-- The pages one after the other, from a cursor; they may run out of fuel, and then there is no result.
unfoldable pub iter_pages :
    Encoding → EventStore → String → ℕ → ℕ → ℕ → Option (Result (List EventEnvelope))
iter_pages c s id page_size zero cursor = none
iter_pages c s id page_size (suc fuel) cursor =
    continued (λ next. iter_pages c s id page_size fuel next) cursor
      (list_events c s id cursor page_size)

abbrev pub checked :
    Result (Unit {0}) → Option (Result (List EventEnvelope)) → Option (Result (List EventEnvelope))
checked (err e) pages = some (err e)
checked (ok _) pages = pages

-- `iter_events`, read to its end
unfoldable pub iter_events :
    Encoding → EventStore → String → ℕ → ℕ → ℕ → Option (Result (List EventEnvelope))
iter_events c s id page_size fuel cursor =
    checked (validate_id id >> guard (is_page_size page_size) value_error)
      (iter_pages c s id page_size fuel cursor)
