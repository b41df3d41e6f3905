-- ===== src/World/Trust.antt =====
-- The observed layer of the world model changes only by trusted provenance: what the actions ground goes to the world.
use mathlib.Core.Bool.{false≢true}
use alice_brain_hermes.Prelude.{String, ◌≡◌, refl, sym, ap, ◌∙◌, false, List, [], ok}
use alice_brain_hermes.Events.{EventEnvelope}
use alice_brain_hermes.Action.{ActionRecord}
use alice_brain_hermes.Action.Reduce.{reduce_actions}
use alice_brain_hermes.Action.Reduce.Change as Actions
use alice_brain_hermes.Action.Reduce.Change.{reduce_actions-Change}
use alice_brain_hermes.Action.Handlers.Verdicts.{effects_grounded}
use alice_brain_hermes.World.{WorldLayer, WorldModel, WorldProposition, layer_of, put, reduce_world}
use alice_brain_hermes.World.Change.{Change, Observes, reduce_world-Change}
use alice_brain_hermes.World.Layers.{other_layer}

untrusted_grounds :
    (e : EventEnvelope) (before after : List ActionRecord) (grounded : List String)
    → Actions.Change e false before after grounded
    → grounded ≡ []
untrusted_grounds e before after grounded (Actions.Change.ignored _ none_grounded) = none_grounded
untrusted_grounds e before after grounded (Actions.Change.added _ _ _ _ _ _ none_grounded) =
    none_grounded
untrusted_grounds e before after grounded (Actions.Change.handled kind id a b _ _ _ _ handles _) =
    ((effects_grounded kind a e false b grounded handles).2 refl).0

Observes-nothing :
    {before after : List WorldProposition} → Observes [] before after → after ≡ before
Observes-nothing (Observes.done items) = refl
Observes-nothing (Observes.more p _ named rest) = absurd (false≢true named)

Change-untrusted :
    (e : EventEnvelope) {w v : WorldModel} → Change e false [] w v → v.observed ≡ w.observed
Change-untrusted e (Change.kept same) = ap (λ w. w.observed) same
Change-untrusted e {w = w} (Change.placed layer p _ needs _ same) =
    ap (λ w. w.observed) same
    ∙ other_layer w layer WorldLayer.observed (put (layer_of w layer) p)
        (λ l. absurd (false≢true (needs l)))
Change-untrusted e (Change.observed items _ sees same) =
    ap (λ w. w.observed) same ∙ Observes-nothing sees

-- An event without trusted provenance that both reducers accept, the world taking what the actions ground, leaves the
-- observed layer of the world as it was, to the last proposition and its content.
pub reduce_world-untrusted :
    (actions after : List ActionRecord) (e : EventEnvelope) (grounded : List String)
    (w v : WorldModel)
    → reduce_actions actions e false ≡ ok (after, grounded)
    → reduce_world w e false grounded ≡ ok v
    → v.observed ≡ w.observed
reduce_world-untrusted actions after e grounded w v acts h =
    let nothing =
      untrusted_grounds e actions after grounded
        (reduce_actions-Change e false actions after grounded acts) in
    Change-untrusted e
      (reduce_world-Change e false [] w v (ap (reduce_world w e false) (sym nothing) ∙ h))
