-- ===== src/Examples/Fixtures.antt =====
-- A small bank application: its profile, policy, scope, capability and ports, for the tests.
use capability_runner.Prelude.{
  ℕ, ◌+◌, String, ◌≡◌, refl, true, false, Option, none, some, [], ◌∷◌, ok, err, lookup,
  lookup-insert, string_eq, arith, ◌==◌, ◌&&◌, nat_eq, leb,
}
use Prim.Native.Char.{code}
use capability_runner.Contracts.Actions.{profile_target, ActionSpec, click_action, left}
use capability_runner.Contracts.Surfaces.{
  SemanticTargetRef, BrowserTargetBinding, ApplicationProfile, applied, InspectionOutcome,
  literal_value,
}
use capability_runner.Contracts.Policy.{
  PolicyEffect, allow, PolicyContext, PolicyDefinition, click_rule,
}
use capability_runner.Contracts.Browser.{BrowserScope, InteractiveElement, not_applicable, click}
use capability_runner.Contracts.Capabilities.{
  CapabilityDefinition, ConditionSpec, target_text_equals, target_visible, ActionStep,
  click_template, CapabilityOutput, string, parse_text, ObservationState, EvaluationSnapshot,
  BusinessOutcomeRule,
}
use capability_runner.Contracts.Gateway.{GatewayActionRequest, GatewayExecutionContext}
use capability_runner.Policy.{UrlLibrary}
use capability_runner.Scope.{PageLibrary}
use capability_runner.Gateway.{Gateway}
use capability_runner.Session.{Controller, fresh_record, is_free, end_dispatch}
use capability_runner.Session.Transitions.{SessionRecord, release}
use capability_runner.Ports.{Ports, World, other_error}
use capability_runner.Replay.Steps.{Engine}

abbrev pub bank_urls : UrlLibrary
bank_urls = record {
  urlsplit = λ url. record {
    scheme = "https";
    username = none;
    password = none;
    hostname = some "bank.example";
    port = none;
    path = "/";
  };
  casefold = λ s. s;
}

abbrev pub bank_pages : PageLibrary
bank_pages = record {
  urlsplit = λ url. some (record {
    scheme = "https";
    username = none;
    password = none;
    hostname = some "bank.example";
    port = none;
    path = "/accounts";
    fragment = "";
  });
  unquote = λ s. s;
  normpath = λ s. s;
  lower = λ s. s;
  decimal = λ n. "";
  same_letter = λ d c. code d == code c;
  is_word = λ c. leb 97 (code c) && leb (code c) 122;
}

abbrev pub bank_scope : BrowserScope
bank_scope = record {
  origin = "https://bank.example";
  read_only_paths = "/accounts" ∷ [];
  read_only_post_paths = [];
}

abbrev pub open_link : InteractiveElement
open_link = record {
  ephemeral_ref = "e1";
  role = "link";
  accessible_name = "Open";
  label = "";
  input_type = "";
  current_value_state = not_applicable;
  enabled = true;
  nearby_text_summary = "";
  text = "Open";
  structural_fingerprint = "f";
  frame_identity = "";
  action_kind = some click;
  destination = some "https://bank.example/accounts";
  method = "GET";
  binding = none;
  match_count = 1;
  structural_context = "";
  perception_sources = [];
}

abbrev pub balance : SemanticTargetRef
balance = record { value = "balance" }

abbrev pub balance_binding : BrowserTargetBinding
balance_binding = record {
  semantic_target = balance;
  frame = none;
  row_scope = none;
  locator_candidates = [];
  description = none;
  review_notes = none;
  observation_id = none;
  ephemeral_ref = none;
}

abbrev pub bank_profile : ApplicationProfile
bank_profile = record {
  profile_id = "bank-1";
  application_family = "bank";
  variant = "v1";
  entry_point = "https://bank.example/";
  target_bindings = balance_binding ∷ [];
  discovery_only = false;
  observation_rules = [];
}

abbrev pub bank_context : PolicyContext
bank_context = record { application = "bank"; profile = "v1" }

abbrev pub bank_policy : PolicyEffect → PolicyDefinition
bank_policy effect = record {
  policy_id = "bank-policy";
  version = "1";
  allowed_contexts = bank_context ∷ [];
  rules = click_rule "click-balance" effect balance ∷ [];
}

abbrev pub click_balance : ActionSpec
click_balance = click_action (profile_target "bank" "v1" none) left

abbrev pub bank_request : GatewayActionRequest
bank_request = record {
  action_id = "a1";
  semantic_target = balance;
  action = click_balance;
  step_id = none;
}

abbrev pub bank_run : GatewayExecutionContext
bank_run = record {
  run_id = "run-1";
  control_session_id = "s1";
  expected_generation = 0;
  surface_session = record { surface_session_id = "b1" };
  profile = bank_profile;
}

abbrev pub bank_gateway : PolicyEffect → Gateway
bank_gateway effect = record {
  urls = bank_urls;
  pages = bank_pages;
  definition = bank_policy effect;
  observes = false;
  scope = none;
}

-- Whoever had the dispatch lock is done.
pub end_dispatch-is_free :
    (session_id : String) (c : Controller) → is_free session_id (end_dispatch session_id c) ≡ true
unfolding end_dispatch is_free
end_dispatch-is_free session_id c = go (lookup session_id c) refl
  where
    go :
        (o : Option SessionRecord)
        → lookup session_id c ≡ o
        → is_free session_id (end_dispatch session_id c) ≡ true
    go none e = ground arith
    go (some r) e = ground (arith, lookup-insert session_id session_id (release r) c)

-- Evidence and the surface count their calls; the surface applies every action and shows a balance.
abbrev pub bank_ports : Ports
bank_ports = record {
  Evidence = ℕ;
  write = λ event context n. (true, n + 1);
  Surface = ℕ;
  perform_action =
      λ session action binding n. (ok (record { outcome = applied; summary = "done" }), n + 1);
  inspect_target = λ session binding n. (
    some (record {
      outcome = InspectionOutcome.visible;
      target = balance;
      text = some "12";
      summary = "seen";
    }),
    n,
  );
  inspect_bound_element = λ session binding n. (none, n);
  resolve_observed = λ session observation ref n. (err (other_error "STALE_ELEMENT_REF"), n);
  Others = Unit;
  run_others = λ o c. (c, o);
  run_until_free = λ session_id o c. (end_dispatch session_id c, o);
  until_free = λ session_id o c. end_dispatch-is_free session_id c;
}

abbrev pub opened_controller : Controller
opened_controller = ("s1", fresh_record "s1" "run-1") ∷ []

abbrev pub bank_world : World bank_ports
bank_world = record { controller = opened_controller; evidence = 0; surface = 0; others = tt }

abbrev pub shows_twelve : ConditionSpec
shows_twelve = target_text_equals balance (literal_value "12")

abbrev pub balance_output : CapabilityOutput
balance_output = record {
  name = "amount";
  value_type = string;
  source = record { target = balance; parser = parse_text };
}

abbrev pub click_step : ActionStep
click_step = record {
  step_id = "step-1";
  action = click_template balance;
  precondition = some (target_visible balance);
  postcondition = some shows_twelve;
  retry_policy = none;
}

abbrev pub denied_outcome : BusinessOutcomeRule
denied_outcome = record {
  code = "DENIED";
  description = "Access was denied.";
  conditions = target_text_equals balance (literal_value "denied") ∷ [];
}

abbrev pub read_balance : CapabilityDefinition
read_balance = record {
  capability_id = "read-balance";
  capability_version = "1";
  name = "Read balance";
  description = "Reads the balance.";
  application_requirement = record { application_family = "bank"; compatible_variant = none };
  inputs = [];
  outputs = balance_output ∷ [];
  steps = click_step ∷ [];
  success_conditions = shows_twelve ∷ [];
  business_outcomes = denied_outcome ∷ [];
}

abbrev pub balance_shows : String → EvaluationSnapshot
balance_shows text = record {
  observed_targets =
      record { target = balance; state = ObservationState.visible; text = some text } ∷ [];
}

abbrev pub bank_engine : Engine
bank_engine = record {
  gateway = bank_gateway allow;
  fullmatch = λ pattern value. true;
  records = true;
}
