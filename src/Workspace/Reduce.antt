-- ===== src/Workspace/Reduce.antt =====
-- The reduction of broadcasts (src/alice_brain_hermes/core/reducer.py, _workspace_candidate and _reduce_workspace).
-- Python's reading of numbers in texts, `float` and `int`, and the truncation of a double are parameters.
pub mod Evaluation
pub mod Accepts
use alice_brain_hermes.Prelude.{
  ℕ, ◌+◌, String, Bool, true, false, not, ◌&&◌, ◌||◌, Option, none, some, List, [], ◌∷◌, leb, ◌==◌,
  str_eq, length, all, any, if◌then◌else◌, Result, ok, err, value_error, domain_invariant, guard,
  rewrap, ◌>>=◌, ◌>>◌, Error, key_error, type_error,
}
use alice_brain_hermes.Text.{is_blank, has_length}
use alice_brain_hermes.Json.{
  Json, Fields, Number, non_negative, negative, double, null, bool, num, str, arr, obj, nil, get,
  get_or, get_elem?, as_str, as_obj, as_arr, tuple_of, as_texts, fields_eq,
}
use alice_brain_hermes.Events.{EventEnvelope}
use alice_brain_hermes.Workspace.{
  SpecialistName, WorkspaceCandidate, WorkspaceState, prediction_error, drives, incomplete_action,
  memory, self_world_conflict, specialist_text, max_workspace_broadcast, magnitude,
  choose_broadcast,
}

abbrev pub require {ℓ} : {A : Type ℓ} → Error → Option A → Result A
require e none = err e
require e (some a) = ok a

-- The float 1.0.
abbrev pub one_bits : ℕ
one_bits = 4607182418800017408

-- `0.0 <= x <= 1.0`
abbrev pub is_unit_score : ℕ → Bool
is_unit_score bits = leb bits one_bits || bits == 9223372036854775808

specialist_of : String → Option SpecialistName
specialist_of s =
    if str_eq s "prediction_error"
    then some prediction_error
    else if str_eq s "drives"
    then some drives
    else if str_eq s "incomplete_action"
    then some incomplete_action
    else if str_eq s "memory"
    then some memory
    else if str_eq s "self_world_conflict"
    then some self_world_conflict
    else none

-- What Python's conversions of texts and doubles give, none for an error or a negative number.
pub record Conversions : Type 0 where
  pub float_text : String → Option ℕ
  pub int_text : String → Option ℕ
  pub truncated : ℕ → Option ℕ

module _ (py : Conversions) where
  -- `float(value)` as far as the field's range [0.0, 1.0] admits it
  pub unit_float : Json → Option ℕ
  unit_float (num (double bits)) = some bits
  unit_float (num (non_negative n)) =
      if n == 0 then some 0 else if n == 1 then some one_bits else none
  unit_float (bool b) = some (if b then one_bits else 0)
  unit_float (str s) = py.float_text s
  unit_float _ = none

  -- `int(value)` as far as it is not negative
  natural : Json → Option ℕ
  natural (num (non_negative n)) = some n
  natural (num (double bits)) = py.truncated bits
  natural (bool b) = some (if b then 1 else 0)
  natural (str s) = py.int_text s
  natural _ = none

  candidate_ok : WorkspaceCandidate → Bool
  candidate_ok c =
      has_length 1 256 c.candidate_id
      && is_unit_score c.score
      && leb (length c.source_ids) 256
      && not (any is_blank c.source_ids)
      && leb 1 c.cycle

  -- The body of the `try` of `_workspace_candidate`; every error of it is replaced.
  read_candidate : Fields → Result WorkspaceCandidate
  unfolding unit_float natural candidate_ok specialist_of
  read_candidate item = do
    id_value ← require key_error (get_elem? item "candidate_id")
    specialist_value ← require key_error (get_elem? item "specialist")
    score_value ← require key_error (get_elem? item "score")
    score ← require value_error (unit_float score_value)
    content_value ← require key_error (get_elem? item "content")
    source_values ← require type_error (tuple_of (get_or item "source_ids" (arr nil)))
    cycle_value ← require key_error (get_elem? item "cycle")
    cycle ← require value_error (natural cycle_value)
    candidate_id ← require value_error (as_str id_value)
    specialist_name ← require value_error (as_str specialist_value)
    specialist ← require value_error (specialist_of specialist_name)
    content ← require value_error (as_obj content_value)
    source_ids ← require value_error (as_texts source_values)
    let c : WorkspaceCandidate = record {
      candidate_id = candidate_id;
      specialist = specialist;
      score = score;
      content = content;
      source_ids = source_ids;
      cycle = cycle;
    }
    guard (candidate_ok c) value_error
    ok c

  pub workspace_candidate : Json → Result WorkspaceCandidate
  unfolding read_candidate
  workspace_candidate (obj item) = rewrap domain_invariant (read_candidate item)
  workspace_candidate _ = err domain_invariant

  pub workspace_candidates : List Json → Result (List WorkspaceCandidate)
  unfolding workspace_candidate
  workspace_candidates [] = ok []
  workspace_candidates (x ∷ xs) = do
    c ← workspace_candidate x
    rest ← workspace_candidates xs
    ok (c ∷ rest)

abbrev pub texts_eq : List String → List String → Bool
texts_eq [] [] = true
texts_eq (s ∷ xs) (t ∷ ys) = str_eq s t && texts_eq xs ys
texts_eq _ _ = false

-- `==` of two candidates
pub candidate_eq : WorkspaceCandidate → WorkspaceCandidate → Bool
candidate_eq c d =
    str_eq c.candidate_id d.candidate_id
    && str_eq (specialist_text c.specialist) (specialist_text d.specialist)
    && magnitude c.score == magnitude d.score
    && fields_eq c.content d.content
    && texts_eq c.source_ids d.source_ids
    && c.cycle == d.cycle

-- `==` of two tuples of candidates
pub candidates_eq : List WorkspaceCandidate → List WorkspaceCandidate → Bool
unfolding candidate_eq
candidates_eq [] [] = true
candidates_eq (c ∷ cs) (d ∷ ds) = candidate_eq c d && candidates_eq cs ds
candidates_eq _ _ = false

-- The validation of `WorkspaceState`.
pub validate_workspace : WorkspaceState → Result WorkspaceState
validate_workspace w = do
  guard (leb 1 w.capacity && leb w.capacity max_workspace_broadcast) value_error
  guard (leb (length w.broadcast) w.capacity) value_error
  ok w

-- `isinstance(value, int)` without bool, as far as it is not negative
abbrev as_natural : Json → Option ℕ
as_natural (num (non_negative n)) = some n
as_natural _ = none

pub accept :
    WorkspaceState → ℕ → List WorkspaceCandidate → List WorkspaceCandidate → Result WorkspaceState
unfolding candidates_eq validate_workspace
accept w cycle candidates selected = do
  guard (length selected == length candidates && candidates_eq selected candidates) domain_invariant
  validate_workspace (record w { cycle = cycle; broadcast = selected })

-- The end of `_reduce_workspace`, from the candidates on.
pub broadcast_candidates : WorkspaceState → ℕ → List WorkspaceCandidate → Result WorkspaceState
unfolding accept
broadcast_candidates w cycle candidates = do
  guard (all (λ c. c.cycle == cycle) candidates) domain_invariant
  choose_broadcast candidates w.capacity >>= accept w cycle candidates

module _ (py : Conversions) where
  pub read_broadcast : WorkspaceState → Fields → Result (ℕ × List WorkspaceCandidate)
  read_broadcast w payload = do
    cycle ← require domain_invariant (as_natural (get payload "cycle"))
    guard (cycle == w.cycle + 1) domain_invariant
    items ← require domain_invariant (as_arr (get payload "candidates"))
    candidates ← workspace_candidates py items
    ok (cycle, candidates)

  abbrev pub broadcast_read : WorkspaceState → ℕ × List WorkspaceCandidate → Result WorkspaceState
  broadcast_read w (cycle, candidates) = broadcast_candidates w cycle candidates

  -- `_reduce_workspace`
  pub reduce_workspace : WorkspaceState → EventEnvelope → Result WorkspaceState
  unfolding read_broadcast
  reduce_workspace w event =
      if str_eq event.event_type "workspace.broadcast"
      then (read_broadcast w event.payload >>= broadcast_read w)
      else ok w
