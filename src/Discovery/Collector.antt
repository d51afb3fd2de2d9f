-- ===== src/Discovery/Collector.antt =====
-- discovery/snapshot_collector.py: `DiscoverySnapshotCollector.collect`, which observes every trusted
-- target and does not fail.
use capability_runner.Prelude.{
  ◌≡◌, refl, ap, ◌∙◌, Option, none, some, List, [], ◌∷◌, map, Dict, lookup,
}
use capability_runner.Contracts.Capabilities.{
  visible, not_visible, unavailable, TargetObservation, EvaluationSnapshot,
}
use capability_runner.Contracts.Surfaces.{
  SemanticTargetRef, BrowserTargetBinding, ApplicationProfile, SurfaceSessionRef, InspectionOutcome,
  TargetInspectionResult,
}
use capability_runner.Ports.{Ports, World, wait}
use capability_runner.Replay.Collection.{bindings_by_target}

abbrev pub unavailable_target : SemanticTargetRef → TargetObservation
unavailable_target target = record { target = target; state = unavailable; text = none }

-- What an inspection says of a target; an ambiguous one is taken for an unavailable one.
unfoldable pub observation_of :
    SemanticTargetRef → Option TargetInspectionResult → TargetObservation
observation_of target none = unavailable_target target
observation_of target (some r) = elim r.outcome [
  | InspectionOutcome.visible ↦ record { target = target; state = visible; text = r.text }
  | InspectionOutcome.not_visible ↦ record { target = target; state = not_visible; text = none }
  | InspectionOutcome.unavailable ↦ unavailable_target target
  | InspectionOutcome.ambiguous ↦ unavailable_target target
]

module _ (P : Ports) (session : SurfaceSessionRef) where
  unfoldable pub observe_targets :
      Dict BrowserTargetBinding
      → List SemanticTargetRef
      → World P
      → List TargetObservation × World P
  unfolding observation_of
  observe_targets bindings [] w = ([], w)
  observe_targets bindings (target ∷ targets) w = elim (lookup target.value bindings) [
    | none ↦
        let (rest, w') = observe_targets bindings targets w in
        (unavailable_target target ∷ rest, w')
    | some binding ↦
        let (inspected, surface) = P.inspect_target session binding w.surface in
        let (rest, w') =
          observe_targets bindings targets (wait P (record w { surface = surface })) in
        (observation_of target inspected ∷ rest, w')
  ]

  -- `collect`
  unfoldable pub collect :
      ApplicationProfile → List SemanticTargetRef → World P → EvaluationSnapshot × World P
  unfolding bindings_by_target observe_targets
  collect profile targets w =
      let (observations, w') =
        observe_targets (bindings_by_target profile.target_bindings []) targets w in
      (record { observed_targets = observations }, w')

  observation_of-target :
      (target : SemanticTargetRef) (o : Option TargetInspectionResult)
      → (observation_of target o).target ≡ target
  unfolding observation_of
  observation_of-target target none = refl
  observation_of-target target (some r) = go r.outcome refl
    where
      go :
          (i : InspectionOutcome) → r.outcome ≡ i → (observation_of target (some r)).target ≡ target
      go InspectionOutcome.visible e = rw (observation_of, e) refl
      go InspectionOutcome.not_visible e = rw (observation_of, e) refl
      go InspectionOutcome.unavailable e = rw (observation_of, e) refl
      go InspectionOutcome.ambiguous e = rw (observation_of, e) refl

  observe_targets-names :
      (bindings : Dict BrowserTargetBinding) (targets : List SemanticTargetRef) (w : World P)
      → map (λ o. o.target) (observe_targets bindings targets w).0 ≡ targets
  unfolding observe_targets
  observe_targets-names bindings [] w = refl
  observe_targets-names bindings (target ∷ targets) w =
      go (lookup target.value bindings) refl (λ v. observe_targets-names bindings targets v)
    where
      go :
          (o : Option BrowserTargetBinding)
          → lookup target.value bindings ≡ o
          → ((v : World P) → map (λ o. o.target) (observe_targets bindings targets v).0 ≡ targets)
          → map (λ o. o.target) (observe_targets bindings (target ∷ targets) w).0 ≡ target ∷ targets
      go none e rest = rw (observe_targets, e) (ap (λ l. target ∷ l) (rest w))
      go (some binding) e rest =
          let inspected = P.inspect_target session binding w.surface in
          rw (observe_targets, e)
            (ap
                (λ t.
                  t
                  ∷ map (λ o. o.target)
                      (observe_targets bindings targets
                        (wait P (record w { surface = inspected.1 }))).0)
                (observation_of-target target inspected.0)
              ∙ ap (λ l. target ∷ l) (rest (wait P (record w { surface = inspected.1 }))))

  -- The collector observes every target that it is asked for, in the order given, whatever the
  -- inspections do: one that raises, or that finds several elements, counts as unavailable.
  pub collect-targets :
      (profile : ApplicationProfile) (targets : List SemanticTargetRef) (w : World P)
      → map (λ o. o.target) (collect profile targets w).0.observed_targets ≡ targets
  unfolding collect
  collect-targets profile targets w =
      observe_targets-names (bindings_by_target profile.target_bindings []) targets w
