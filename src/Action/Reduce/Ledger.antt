-- ===== src/Action/Reduce/Ledger.antt =====
-- The invariant of the tuple of actions, which every accepted event keeps.
use alice_brain_hermes.Prelude.{
  String, ◌≡◌, refl, Bool, true, List, [], ◌∷◌, is_unique, All, All-append, ok,
}
use alice_brain_hermes.Json.{Fields}
use alice_brain_hermes.Events.{EventEnvelope}
use alice_brain_hermes.Action.{ActionRecord}
use alice_brain_hermes.Action.Validate.{was, validate_action}
use alice_brain_hermes.Action.Validate.Claims.{IsLifecycle, validate_action-IsLifecycle}
use alice_brain_hermes.Action.Reduce.{fresh, reduce_actions}
use alice_brain_hermes.Action.Reduce.Lookup.{
  ids, find-All, unique-snoc, unique-replace, All-replace,
}
use alice_brain_hermes.Action.Reduce.Change.{Change, reduce_actions-Change}

-- One action: its lifecycle claims, and its phase stands in its history.
pub record IsSound (a : ActionRecord) : Type 0 where
  pub claims : IsLifecycle a
  pub recorded : was a.phase a ≡ true

-- The tuple: no ID stands twice, and every action is sound.
pub record IsLedger (actions : List ActionRecord) : Type 0 where
  pub distinct : is_unique (ids actions) ≡ true
  pub sound : All IsSound actions

fresh-IsSound :
    (id : String) (intent : Fields) (e : EventEnvelope)
    → validate_action (fresh id intent e) ≡ ok (fresh id intent e)
    → IsSound (fresh id intent e)
fresh-IsSound id intent e valid = record {
  claims = validate_action-IsLifecycle (fresh id intent e) (fresh id intent e) valid;
  recorded = refl;
}

Change-IsLedger :
    (e : EventEnvelope) {trusted : Bool} {before after : List ActionRecord} {grounded : List String}
    → Change e trusted before after grounded
    → IsLedger before
    → IsLedger after
Change-IsLedger e (Change.ignored same _) l = rw same l
Change-IsLedger e {before} (Change.added id intent _ absent valid longer _) l = rw longer (record {
  distinct = unique-snoc before (fresh id intent e) absent l.distinct;
  sound =
      All-append IsSound before (fresh id intent e ∷ []) l.sound
        (fresh-IsSound id intent e valid, tt);
})
Change-IsLedger e {before} (Change.handled kind id a b _ _ found replaced _ h) l =
    rw replaced (record {
      distinct = unique-replace before b l.distinct;
      sound = All-replace IsSound before b l.sound (record {
        claims = validate_action-IsLifecycle b b h.valid;
        recorded = h.phase_recorded (find-All IsSound id before a l.sound found).recorded;
      });
    })

-- An event that the reducer accepts keeps the tuple of actions a ledger: IDs stay distinct, and every action keeps
-- its lifecycle claims and has its phase in its history.
pub reduce_actions-IsLedger :
    (e : EventEnvelope) (trusted : Bool) (before after : List ActionRecord) (grounded : List String)
    → IsLedger before
    → reduce_actions before e trusted ≡ ok (after, grounded)
    → IsLedger after
reduce_actions-IsLedger e trusted before after grounded l h =
    Change-IsLedger e (reduce_actions-Change e trusted before after grounded h) l
