-- ===== src/Discovery/Decisions.antt =====
-- discovery/discovery_engine.py: what the model decides, and the checks of it.
use capability_runner.Prelude.{
  ℕ, ◌+◌, String, ◌<>◌, Bool, true, false, Option, none, some, List, [], ◌∷◌, ◌++◌, map, ◌==◌,
  nat_eq, string_eq, option_eq, ◌&&◌, ◌||◌, not, contains, all, if◌then◌else◌, contains_text, Dict,
  lookup, insert,
}
use capability_runner.Contracts.Actions.{ActionSpec, fill_action, click_action, left}
use capability_runner.Contracts.Capabilities.{
  ObservationState, visible, not_visible, unavailable, TargetObservation, EvaluationSnapshot,
}
use capability_runner.Contracts.Discovery.{
  DiscoveryAction, discovery_fill, discovery_click, target_of, CompletionEvidence,
  DiscoveryDecision, GoalSpanValueSource, VerifiedCompletionEvidence, DiscoveryRequest,
}
use capability_runner.Contracts.Evidence.{Value, text, items, Values, nil, cons}
use capability_runner.Contracts.Gateway.{GatewayActionRequest}
use capability_runner.Replay.Checks.{sorted_items, text_length}
use capability_runner.Discovery.Texts.{unfenced, find_text, number_text}

-- `_DECISION_ADAPTER.validate_python(json.loads(text))`
abbrev pub DecisionParser : Type 0
DecisionParser = String → Option DiscoveryDecision

-- `_parse_decision`; nothing where it raises.
unfoldable pub parse_decision : DecisionParser → String → Option DiscoveryDecision
unfolding unfenced
parse_decision parse content = elim (unfenced content) [ none ↦ none | some json ↦ parse json ]

-- Whether a fill's value is a text of the goal.
abbrev pub is_grounded : String → DiscoveryAction → Bool
is_grounded goal (discovery_fill target value) = not (value == "") && contains_text goal value
is_grounded goal (discovery_click target) = true

-- `_validate_action`
unfoldable pub validate_action : DiscoveryAction → String → List String → Option String
validate_action action goal trusted =
    if contains trusted (target_of action)
    then if is_grounded goal action then none else some "UNGROUNDED_FILL_VALUE"
    else some "UNKNOWN_TARGET"

abbrev pub state_text : ObservationState → String
state_text visible = "VISIBLE"
state_text not_visible = "NOT_VISIBLE"
state_text unavailable = "UNAVAILABLE"

abbrev pub with_text : TargetObservation → Dict String → Dict String
with_text item d = elim item.state [
  | visible ↦ elim item.text [ none ↦ d | some shown ↦ insert item.target.value shown d ]
  | other ↦ d
]

-- The texts that are visible now.
unfoldable pub current_texts : List TargetObservation → Dict String → Dict String
current_texts [] d = d
current_texts (item ∷ observed) d = current_texts observed (with_text item d)

-- The values that executed fills took from the goal, by target, in the order in which they came.
abbrev pub GoalValues : Type 0
GoalValues = Dict (String × GoalSpanValueSource)

unfoldable pub matching_source : String → GoalValues → Option String
matching_source observed [] = none
matching_source observed ((target, (value, span)) ∷ rest) =
    let further = matching_source observed rest in
    if value == observed then some target else further

module _ (sha256 : String → String) where
  -- The loop of `_verified_completion_evidence`: the targets cited so far, whether a text of the goal
  -- was among their texts, and what is verified of them.
  unfoldable pub verify_evidence :
      Dict String
      → String
      → List String
      → GoalValues
      → List CompletionEvidence
      → List String
      → Bool
      → List VerifiedCompletionEvidence
      → Option (List VerifiedCompletionEvidence)
  unfolding matching_source
  verify_evidence current goal trusted values [] cited grounded verified =
      if grounded then some verified else none
  verify_evidence current goal trusted values (e ∷ evidence) cited grounded verified =
      let rest =
        verify_evidence current goal trusted values evidence (e.target ∷ cited)
          (grounded || (not (e.observed_text == "") && contains_text goal e.observed_text))
          (verified
            ++ record {
              target = e.target;
              text_fingerprint = sha256 e.observed_text;
              goal_span_action_target = matching_source e.observed_text values;
            }
              ∷ []) in
      if contains trusted e.target
        && not (contains cited e.target)
        && lookup e.target current == some e.observed_text
      then rest
      else none

  -- `_verified_completion_evidence`
  unfoldable pub verified_completion_evidence :
      List CompletionEvidence
      → EvaluationSnapshot
      → String
      → List String
      → GoalValues
      → Option (List VerifiedCompletionEvidence)
  unfolding current_texts verify_evidence
  verified_completion_evidence evidence snapshot goal trusted values =
      verify_evidence (current_texts snapshot.observed_targets []) goal trusted values evidence []
        false []

-- `_gateway_request`
unfoldable pub gateway_request : DiscoveryAction → DiscoveryRequest → ℕ → ℕ → GatewayActionRequest
unfolding number_text
gateway_request action request turn action_number = record {
  action_id = "discovery-" <> number_text action_number;
  semantic_target = record { value = target_of action };
  action = action_of action;
  step_id = some ("discovery-turn-" <> number_text turn);
}
  where
    action_of : DiscoveryAction → ActionSpec
    action_of (discovery_fill target value) =
        fill_action request.target (record { secret_value = value })
    action_of (discovery_click target) = click_action request.target left

-- `_goal_span_source`
unfoldable pub goal_span_source : DiscoveryAction → String → Option GoalSpanValueSource
unfolding find_text
goal_span_source (discovery_fill target value) goal = elim (find_text goal value) [
  | none ↦ none
  | some start ↦ some (record { start = start; stop = start + text_length value })
]
goal_span_source (discovery_click target) goal = none

-- The entries of `_snapshot_key`: the target of an observation, its state and its text.
abbrev pub SnapshotKey : Type 0
SnapshotKey = Dict (String × Option String)

abbrev pub key_entry : TargetObservation → String × (String × Option String)
key_entry item = (item.target.value, (state_text item.state, item.text))

-- `_snapshot_key`; every target is observed once, so that the targets alone order the entries.
unfoldable pub snapshot_key : EvaluationSnapshot → SnapshotKey
unfolding sorted_items
snapshot_key snapshot = sorted_items (map key_entry snapshot.observed_targets)

unfoldable pub same_key : SnapshotKey → SnapshotKey → Bool
same_key [] [] = true
same_key ((a, (s, t)) ∷ k) ((b, (u, v)) ∷ l) = a == b && s == u && t == v && same_key k l
same_key _ _ = false

-- `proposal_key == previous_proposal`, where the keys are those of the actions
abbrev pub same_proposal : DiscoveryAction → Option DiscoveryAction → Bool
same_proposal (discovery_fill t v) (some (discovery_fill u w)) = t == u && v == w
same_proposal (discovery_click t) (some (discovery_click u)) = t == u
same_proposal _ _ = false

abbrev pub was_seen : SnapshotKey → Option SnapshotKey → Bool
was_seen key none = false
was_seen key (some previous) = same_key key previous

abbrev pub structural_state : Dict ObservationState → Values
structural_state [] = nil
structural_state ((target, state) ∷ rest) =
    cons (items (cons (text target) (cons (text (state_text state)) nil))) (structural_state rest)

-- `_snapshot_fingerprint`, over `json.dumps` with compact separators and the hash
unfoldable pub snapshot_fingerprint :
    (Value → String) → (String → String) → EvaluationSnapshot → String
unfolding sorted_items
snapshot_fingerprint dumps sha256 snapshot = sha256 (
    dumps (
      items (
        structural_state (
          sorted_items (map (λ item. (item.target.value, item.state)) snapshot.observed_targets)))))

-- `required <= given`, of sets of texts
abbrev pub is_subset : List String → List String → Bool
is_subset required given = all (λ name. contains given name) required
