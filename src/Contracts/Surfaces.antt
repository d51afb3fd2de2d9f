-- ===== src/Contracts/Surfaces.antt =====
-- contracts/surfaces.py: semantic targets, their bindings to a browser, and application profiles.
use capability_runner.Prelude.{String, Bool, Option, List, Eq, string_dec, nat_eq}
use capability_runner.Contracts.Actions.{HttpUrl}

pub record SemanticTargetRef : Type 0 where
  pub value : String

pub SemanticTargetRef-discrete : Discrete SemanticTargetRef
SemanticTargetRef-discrete = hlevel string_dec

instance unfoldable pub semantic_target_ref_eq : Eq SemanticTargetRef
unfolding SemanticTargetRef-discrete
semantic_target_ref_eq = record { dec = SemanticTargetRef-discrete }

pub data TargetValueRef : Type 0 where
  literal_value : String → TargetValueRef
  input_value : String → TargetValueRef

pub record FrameContext : Type 0 where
  pub name : String
  pub description : Option String

pub data LocatorCandidate : Type 0 where
  role_locator : String → Option String → Bool → LocatorCandidate
  label_locator : String → Bool → LocatorCandidate
  text_locator : String → Bool → LocatorCandidate
  css_locator : String → Bool → LocatorCandidate

pub record RowMatch : Type 0 where
  pub column : String
  pub value : TargetValueRef

pub record RowScope : Type 0 where
  pub table_context : Option LocatorCandidate
  pub row_match : RowMatch

pub record BrowserTargetBinding : Type 0 where
  pub semantic_target : SemanticTargetRef
  pub frame : Option FrameContext
  pub row_scope : Option RowScope
  pub locator_candidates : List LocatorCandidate
  pub description : Option String
  pub review_notes : Option String
  pub observation_id : Option String
  pub ephemeral_ref : Option String

pub data RuleOutcome : Type 0 where
  failure business_outcome : RuleOutcome

pub record TextOutcomeRule : Type 0 where
  pub text : String
  pub outcome : RuleOutcome
  pub summary : String

pub record ApplicationProfile : Type 0 where
  pub profile_id : String
  pub application_family : String
  pub variant : String
  pub entry_point : HttpUrl
  pub target_bindings : List BrowserTargetBinding
  pub discovery_only : Bool
  pub observation_rules : List TextOutcomeRule

pub record SurfaceSessionRef : Type 0 where
  pub surface_session_id : String

pub SurfaceSessionRef-discrete : Discrete SurfaceSessionRef
SurfaceSessionRef-discrete = hlevel string_dec

instance unfoldable pub surface_session_ref_eq : Eq SurfaceSessionRef
unfolding SurfaceSessionRef-discrete
surface_session_ref_eq = record { dec = SurfaceSessionRef-discrete }

pub data SurfaceActionOutcome : Type 0 where
  applied target_not_found target_ambiguous target_not_actionable surface_timeout :
      SurfaceActionOutcome

unfoldable pub outcome_text : SurfaceActionOutcome → String
outcome_text applied = "APPLIED"
outcome_text target_not_found = "TARGET_NOT_FOUND"
outcome_text target_ambiguous = "TARGET_AMBIGUOUS"
outcome_text target_not_actionable = "TARGET_NOT_ACTIONABLE"
outcome_text surface_timeout = "SURFACE_TIMEOUT"

-- The fields of a `SurfaceActionResult` that the gateways read.
pub record SurfaceActionResult : Type 0 where
  pub outcome : SurfaceActionOutcome
  pub summary : String

pub data InspectionOutcome : Type 0 where
  visible not_visible unavailable ambiguous : InspectionOutcome

pub record TargetInspectionResult : Type 0 where
  pub outcome : InspectionOutcome
  pub target : SemanticTargetRef
  pub text : Option String
  pub summary : String
