-- ===== src/Discovery/Invariants.antt =====
-- discovery/discovery_engine.py: what the turns of a discovery keep, and what its results satisfy.
use capability_runner.Prelude.{
  ℕ, suc, ◌≤◌, ◌+◌, ◌-◌, String, ◌≡◌, ◌≢◌, refl, sym, subst, ok, map, any, contains, Bool, true,
  false, Option, none, some, List, [], ◌∷◌, ◌++◌, length, All, arith, string_eq, if◌then◌else◌,
}
use capability_runner.Contracts.Capabilities.{EvaluationSnapshot}
use capability_runner.Contracts.Discovery.{
  DiscoveryAction, discovery_fill, discovery_click, target_of, kind_of, GoalSpanValueSource,
  ModelRequest, DiscoveryDecision, complete_decision, complete_kind, intervention_kind, fail_kind,
  invalid_kind, CompletionEvidence, VerifiedCompletionEvidence, DecisionKind, act_kind,
  DiscoveryTraceEntry, DiscoveryOutcome, success, intervention_required, failed, DiscoveryResult,
  DiscoveryRequest,
}
use capability_runner.Contracts.Gateway.{GatewayExecutionContext}
use capability_runner.Contracts.Evidence.{Fields}
use capability_runner.Ports.{Ports, World, record_event}
use capability_runner.Discovery.Decisions.{
  parse_decision, validate_action, is_subset, goal_span_source,
}
use capability_runner.Discovery.Texts.{take_text, drop_text}
use capability_runner.Discovery.Presenter.{present}
use capability_runner.Discovery.Grounding.{Shown, quotes, validated-goal_span}
use capability_runner.Discovery.Variables.{
  DiscoveryEngine, Ended, returned, Progress, result, plain_entry,
}
use capability_runner.Discovery.Turns.{
  Turn, discovery_event, logged, log, target_refs, trusted_targets, required_targets,
  fingerprint_of,
}

length-snoc : {A : Type 0} (xs : List A) (x : A) → length (xs ++ x ∷ []) ≡ suc (length xs)
length-snoc [] x = refl
length-snoc (y ∷ xs) x = ground (arith, length-snoc xs x)

All-snoc :
    {A : Type 0} (Q : A → Type 0) (xs : List A) (x : A) → All Q xs → Q x → All Q (xs ++ x ∷ [])
All-snoc Q [] x all q = (q, tt)
All-snoc Q (y ∷ xs) x all q = (all.0, All-snoc Q xs x all.1 q)

-- The actions in a trace.
abbrev pub act_weight : DecisionKind → ℕ
act_weight act_kind = 1
act_weight other = 0

abbrev pub count_acts : List DiscoveryTraceEntry → ℕ
count_acts [] = 0
count_acts (e ∷ es) = act_weight e.decision_kind + count_acts es

act_weight-le : (k : DecisionKind) → act_weight k ≤ 1
act_weight-le act_kind = omega arith
act_weight-le complete_kind = omega arith
act_weight-le intervention_kind = omega arith
act_weight-le fail_kind = omega arith
act_weight-le invalid_kind = omega arith

count_acts-snoc :
    (es : List DiscoveryTraceEntry) (e : DiscoveryTraceEntry)
    → count_acts (es ++ e ∷ []) ≡ act_weight e.decision_kind + count_acts es
count_acts-snoc [] e = refl
count_acts-snoc (x ∷ es) e = omega (arith, count_acts-snoc es e)

module _ (P : Ports) (engine : DiscoveryEngine P) (request : DiscoveryRequest)
    (context : GatewayExecutionContext) where
  -- Where an action takes its value from: a fill from a span of the goal that is its value.
  abbrev pub IsGrounded : DiscoveryAction → Option GoalSpanValueSource → Type 0
  IsGrounded (discovery_fill target value) source =
      (span : GoalSpanValueSource) × (source ≡ some span)
      × (take_text (span.stop - span.start) (drop_text span.start request.goal) ≡ value)
  IsGrounded (discovery_click target) source = source ≡ none

  -- An action's entry: it has the kind and the target of an action on a trusted target, and the source
  -- of its value.
  pub record AllowedAct (e : DiscoveryTraceEntry) : Type 0 where
    pub action : DiscoveryAction
    pub kind : e.action_kind ≡ some (kind_of action)
    pub target : e.semantic_target ≡ some (target_of action)
    pub trusted : contains (trusted_targets P engine request context) (target_of action) ≡ true
    pub grounded : IsGrounded action e.value_source

  -- What may stand in a trace.
  abbrev pub AllowedAs : DecisionKind → DiscoveryTraceEntry → Type 0
  AllowedAs act_kind e = AllowedAct e
  AllowedAs other e = e.gateway_outcome ≡ none

  validated-IsGrounded :
      (action : DiscoveryAction) (trusted : List String)
      → validate_action action request.goal trusted ≡ none
      → IsGrounded action (goal_span_source action request.goal)
  unfolding goal_span_source
  validated-IsGrounded (discovery_fill target value) trusted v =
      validated-goal_span request.goal target value trusted v
  validated-IsGrounded (discovery_click target) trusted v = refl

  validated-trusted :
      (action : DiscoveryAction) (trusted : List String)
      → validate_action action request.goal trusted ≡ none
      → contains trusted (target_of action) ≡ true
  unfolding validate_action
  validated-trusted action trusted v = ground arith

  pub validated-AllowedAct :
      (action : DiscoveryAction) (e : DiscoveryTraceEntry)
      → validate_action action request.goal (trusted_targets P engine request context) ≡ none
      → e.action_kind ≡ some (kind_of action)
      → e.semantic_target ≡ some (target_of action)
      → e.value_source ≡ goal_span_source action request.goal
      → AllowedAct e
  validated-AllowedAct action e v kind target source = record {
    action = action;
    kind = kind;
    target = target;
    trusted = validated-trusted action (trusted_targets P engine request context) v;
    grounded =
        subst (IsGrounded action) (sym source)
          (validated-IsGrounded action (trusted_targets P engine request context) v);
  }

  abbrev pub Allowed : DiscoveryTraceEntry → Type 0
  Allowed e = AllowedAs e.decision_kind e

  -- A snapshot that the collector took of the trusted targets.
  abbrev pub Observed : EvaluationSnapshot → Type 0
  Observed snapshot =
      (w : World P) × ((engine.collect context.surface_session context.profile
          (target_refs P engine request context) w).0
        ≡ some snapshot)

  -- What the model is asked in a turn.
  abbrev pub question :
      EvaluationSnapshot → ℕ → List DiscoveryTraceEntry → Option String → ModelRequest
  question snapshot turn trace repair_code =
      present engine.dumps request.goal context.profile snapshot turn trace repair_code
        request.required_completion_targets

  -- A decision that the model's answer to a question is parsed to.
  abbrev pub Answered : ModelRequest → DiscoveryDecision → Type 0
  Answered asked decision =
      (w : World P) × ((content : String) × ((engine.complete asked w).0 ≡ some (ok content))
        × (parse_decision engine.parse content ≡ some decision))

  -- What a success rests on: the model, asked about a snapshot of the collector's, answered with
  -- citations. Each repeats what that very snapshot shows at a trusted target, one of them quotes the
  -- goal, the result's evidence is of their targets and of every required one, and the last entry of
  -- the trace has that snapshot's fingerprint.
  pub record Support (r : DiscoveryResult) : Type 0 where
    pub snapshot : EvaluationSnapshot
    pub citations : List CompletionEvidence
    pub before : List DiscoveryTraceEntry
    pub repair_code : Option String
    pub seen : Observed snapshot
    pub told : Answered (question snapshot r.turns before repair_code) (complete_decision citations)
    pub logged_last :
        r.trace
        ≡ before
          ++ plain_entry r.turns complete_kind
              (fingerprint_of P engine request context snapshot)
              "VERIFIED"
            ∷ []
    pub cited : map (λ e. e.target) r.completion_evidence ≡ map (λ e. e.target) citations
    pub shown : All (Shown snapshot (trusted_targets P engine request context)) citations
    pub quoted : any (quotes request.goal) citations ≡ true
    pub covers : is_subset (required_targets P engine request context) r.verified_targets ≡ true

  abbrev pub SupportedAs : DiscoveryOutcome → DiscoveryResult → Type 0
  SupportedAs success r = Support r
  SupportedAs other r = Unit

  -- The bounds of a result.
  pub record Within (r : DiscoveryResult) : Type 0 where
    pub turns_max : r.turns ≤ 12
    pub steps_max : r.turns ≤ request.max_steps
    pub actions_max : r.actions ≤ 8
    pub entries : length r.trace ≤ r.turns
    pub acts : r.actions ≤ length r.trace
    pub counted : count_acts r.trace ≡ r.actions

  pub record Fine (r : DiscoveryResult) : Type 0 where
    pub within : Within r
    pub allowed : All Allowed r.trace
    pub supported : SupportedAs r.outcome r

  abbrev pub EndsFine : Ended → Type 0
  EndsFine (returned r) = Fine r
  EndsFine other = Unit

  abbrev pub Ends : Turn P engine request context → Type 0
  Ends t = (w : World P) → EndsFine (t w).0

  -- The variables at the beginning of a turn.
  pub record Kept (turn : ℕ) (p : Progress) : Type 0 where
    pub turn_max : turn ≤ 13
    pub turn_steps : turn ≤ suc request.max_steps
    pub actions_max : p.actions ≤ 8
    pub entries : suc (length p.trace) ≤ turn
    pub acts : p.actions ≤ length p.trace
    pub counted : count_acts p.trace ≡ p.actions
    pub allowed : All Allowed p.trace

  abbrev pub Onward : ℕ → (Progress → Turn P engine request context) → Type 0
  Onward turn next = (p : Progress) → Kept (suc turn) p → Ends (next p)

  -- A turn of the loop.
  pub record InLoop (turn : ℕ) : Type 0 where
    pub turn_max : turn ≤ 12
    pub turn_steps : turn ≤ request.max_steps

  pub unsupported :
      (outcome : DiscoveryOutcome)
      → outcome ≢ success
      → (r : DiscoveryResult) → SupportedAs outcome r
  unsupported success n r = absurd (n refl)
  unsupported intervention_required n r = tt
  unsupported failed n r = tt

  pub if-Fine :
      (b : Bool) (x y : Ended × World P)
      → (b ≡ true → EndsFine x.0)
      → (b ≡ false → EndsFine y.0)
      → EndsFine (if b then x else y).0
  if-Fine true x y h k = h refl
  if-Fine false x y h k = k refl

  pub if-Ends :
      (b : Bool) (t u : Turn P engine request context)
      → (b ≡ true → Ends t)
      → (b ≡ false → Ends u)
      → Ends (if b then t else u)
  if-Ends true t u h k = h refl
  if-Ends false t u h k = k refl

  pub log-Ends :
      (reason outcome : String) (metadata : Fields) (step : Option String)
      (next : Turn P engine request context)
      → Ends next
      → Ends (log P engine request context reason outcome metadata step next)
  unfolding log record_event
  log-Ends reason outcome metadata step next h w = go engine.records (
      record_event P (discovery_event P engine request context reason outcome metadata step) none w)
    where
      go :
          (b : Bool) (o : Bool × World P)
          → EndsFine (if b then logged P engine request context o next else next w).0
      go true (true, v) = h v
      go true (false, v) = tt
      go false o = h w

  -- A turn that ends with the trace as it is, or with one entry more.
  pub same-Fine :
      (turn : ℕ) (p : Progress) (outcome : DiscoveryOutcome) (reason : String)
      → Kept turn p
      → InLoop turn
      → outcome ≢ success
      → Fine (result outcome reason turn p.actions p.trace [])
  same-Fine turn p outcome reason k l n = record {
    within = record {
      turns_max = l.turn_max;
      steps_max = l.turn_steps;
      actions_max = k.actions_max;
      entries = omega (arith, k.entries);
      acts = k.acts;
      counted = k.counted;
    };
    allowed = k.allowed;
    supported = unsupported outcome n _;
  }

  pub snoc-Fine :
      (turn : ℕ) (p : Progress) (outcome : DiscoveryOutcome) (reason : String)
      (e : DiscoveryTraceEntry) (evidence : List VerifiedCompletionEvidence)
      → Kept turn p
      → InLoop turn
      → Allowed e
      → act_weight e.decision_kind ≡ 0
      → SupportedAs outcome (result outcome reason turn p.actions (p.trace ++ e ∷ []) evidence)
      → Fine (result outcome reason turn p.actions (p.trace ++ e ∷ []) evidence)
  snoc-Fine turn p outcome reason e evidence k l a plain s =
      let n = length-snoc p.trace e in
      record {
        within = record {
          turns_max = l.turn_max;
          steps_max = l.turn_steps;
          actions_max = k.actions_max;
          entries = rw n k.entries;
          acts = omega (arith, n, k.acts);
          counted = omega (arith, count_acts-snoc p.trace e, k.counted, plain);
        };
        allowed = All-snoc Allowed p.trace e k.allowed a;
        supported = s;
      }

  pub snoc-Kept :
      (turn : ℕ) (p p' : Progress) (e : DiscoveryTraceEntry)
      → Kept turn p
      → InLoop turn
      → Allowed e
      → p'.trace ≡ p.trace ++ e ∷ []
      → p'.actions ≤ 8
      → p'.actions ≡ act_weight e.decision_kind + p.actions
      → Kept (suc turn) p'
  snoc-Kept turn p p' e k l a same most step =
      let n : length p'.trace ≡ suc (length p.trace) = rw same (length-snoc p.trace e) in
      record {
        turn_max = omega (arith, l.turn_max);
        turn_steps = omega (arith, l.turn_steps);
        actions_max = most;
        entries = omega (arith, n, k.entries);
        acts = omega (arith, n, k.acts, step, act_weight-le e.decision_kind);
        counted = rw same (omega (arith, count_acts-snoc p.trace e, k.counted, step));
        allowed = rw same (All-snoc Allowed p.trace e k.allowed a);
      }
