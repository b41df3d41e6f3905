-- ===== src/Lib.antt =====
-- Alice-brain-Hermes: a model of the brain's event-sourced core and its correctness.
--
-- The program keeps a brain as a state that is rebuilt from an append-only ledger of events. An event
-- envelope (alice_brain_hermes/core/events.py) is validated, and the pure reducer (core/reducer.py) hands it to
-- the reducers of the parts: the actions (core/action.py), the actors and the trust in them (core/identity.py)
-- and the world model (core/world.py). The provenance check of the identity decides whether an event is
-- trusted, the action reducer says which observations a receipt grounds, and both go to the world reducer.
--
-- Events reach the brain from a host: the plugin's bridge (hermes/bridge.py) numbers what the host's hooks report, keeps
-- it in a bounded queue or as counted gaps, and a worker sends it to the daemon in the order of the numbers.
--
-- The daemon commits what the bridge sends to its store (runtime/store.py), where each brain's events are numbered and
-- each bridge instance has a stream with a cursor.
--
-- The files, with paths below src/ of the repository:
-- - Prelude and its children: the shared names, lists, tests, and results that may raise.
-- - Text, Json, Ids: Python's text operations, frozen JSON (core/events.py) and UUID4 texts (ids.py).
-- - Events: EventEnvelope and EventEnvelope.revalidated (core/events.py).
-- - Action: the records of core/action.py; Action.Source the source semantics of receipts and blocks,
--   Action.Validate the pydantic validators (Claims: what they ensure), Action.Grounding
--   _receipt_grounded_ids, Action.Transition _transition and _receipt_disposition, Action.Receive the
--   branch of a receipt, Action.Handlers the other branches of reduce_actions, Action.Reduce the function
--   reduce_actions itself. The state is the tuple of action records, a list; an error is a value of Result.
-- - Identity: core/identity.py, the state with is_authorized in Identity.State; reduce_identity keeps its name.
-- - Bounded, World: core/world.py; _upsert is Bounded.upsert at the layer capacity, and reduce_world keeps
--   its name.
-- - Order, Workspace: Python's order of texts and tuples; core/workspace.py, where choose_broadcast keeps its name
--   (Rank, Best, Ranking, Cut and Choice: its proofs). Workspace.Reduce: _workspace_candidate and _reduce_workspace of
--   core/reducer.py, with what it accepts in Workspace.Reduce.Accepts.
-- - Runtime: RuntimeFailure and RuntimeState of core/state.py, with the branches of reduce_state that change them.
-- - Memory: MemoryRecord of core/workspace.py and ThoughtBranch of core/action.py, _reduce_memory and
--   _simulation_branch of core/reducer.py, with the branch simulation.created of reduce_state and their part of the
--   working-set counters.
-- - Lifecycle: the start of reduce_state of core/reducer.py, which checks the sequence and counts the events by type
--   (Tally: the functions on the counts, Counting: count_event).
-- - Admission: the store of actions in reduce_state of core/reducer.py, from reduce_actions over the eviction of a
--   terminal action to the counter (Evictions: the eviction, Bounds: the whole step).
-- - Scheduler: health, step and run of runtime/scheduler.py, over a record of the engine's calls; `attempt` is step
--   in the scheduler's own process, and the environment of run is a list of wakes.
-- - Bridge: the capture side of hermes/bridge.py (HookBridge). Gaps, Capture and Reserve: how the numbers of the capture
--   sequence go to the queue or to gaps; Worker: the choice of the next record; Connection, Exchange and Commit: what
--   the daemon's replies do; Close: the seal and the rotation. The proofs: Held and Growth (the numbers that are held, and the
--   consistent states), Drops, Taken, Edges, Invariant, Reservations, Acceptance and Accepted (captures), Bounds, Keeping,
--   Selection, Stream and Blocked (the worker), Exchanges, Settling, Commits, Unchanged and Replies (the daemon), Run
--   (all operations) and Ending.
-- - Store: the event ledger of runtime/store.py (SQLiteLedger). Registry: the identity names and the
--   counters of observability that an append writes; Append: append and append_expected; Pages: list_events
--   and iter_events; Reads: get_event and get_event_and_head; Streams: the row of a bridge stream and the operations on it, with Streams.Restart (the
--   recovery after a restart) and Streams.Commits (the stream's part of commit_bridge_record). The proofs: Ledger (the consistent tables), Appends, Names (the registry), Sequence and Retry (appends), Iteration
--   (pages), Delivery (an append and what a reader then gets), Streams.Continuing, Streams.Life and Streams.Resume.
-- - Tests: sample events and runs, and the theorems at concrete inputs. The modules named Evaluation open
--   the definitions of their parents for these runs.
--
-- Modelling choices. A pydantic model is a record, and its validation the conjunction of the constraints that the
-- class declares; ValidationError is a ValueError. A float is the bit pattern of a finite double, since this code
-- only compares floats. dict.get returns None both for a missing key and for JSON null, so `get` returns null for
-- both. A frozenset of observation IDs is a list without repeats. Capacities are those of core/limits.py. Message
-- texts of exceptions are not modelled; their classes are. A table of the store is the list of its rows, a transaction
-- that raises leaves it as it was, and the canonical text and the digest of an event are parameters. Only iter_events
-- runs on fuel, and more fuel than the brain has events is enough for it.
--
-- What Python makes of a text, an integer or a double by `float` and `int`, and the sums and differences of floats, are
-- parameters, with no assumption. The engine's calls are a parameter of the scheduler, of which IsHonest says what is
-- relied on. The loop of run is recursion on what it finds at its wakes. An operation of the bridge that holds its lock
-- is one function, and a run of the bridge is a sequence of operations; the worker's selection has a step before the
-- lock, and the runs of Bridge.Run take it in one step. The shaping of the arguments of a callback is a parameter of
-- the bridge that may fail, as are the fingerprints; what the daemon answers is an argument. A gap's size check is not
-- modelled, since a gap that passes the others is small.
--
-- Not modelled: the other tables of the SQLite store with its snapshots and replay, the daemon, the bridge's threads and
-- emergency flags, the command line and the plugin's registration (I/O and processes),
-- event fingerprints (SHA-256), the personality and energy arithmetic on floats, the specialists of the workspace,
-- cognition, and the rest of the brain state and its counters.
pub mod Prelude
pub mod Text
pub mod Order
pub mod Json
pub mod Ids
pub mod Events
pub mod Action
pub mod Identity
pub mod Bounded
pub mod Workspace
pub mod Runtime
pub mod Scheduler
pub mod Memory
pub mod Lifecycle
pub mod Admission
pub mod Store
pub mod Bridge
pub mod World
pub mod Tests
