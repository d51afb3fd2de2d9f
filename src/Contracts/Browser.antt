-- ===== src/Contracts/Browser.antt =====
-- contracts/browser_discovery.py: the operator's read-only scope, and observed elements.
use capability_runner.Prelude.{ℕ, String, Bool, Option, List}
use capability_runner.Contracts.Surfaces.{BrowserTargetBinding}

pub record BrowserScope : Type 0 where
  pub origin : String
  pub read_only_paths : List String
  pub read_only_post_paths : List String

pub data ValueState : Type 0 where
  empty set not_applicable : ValueState

pub data PerceptionSource : Type 0 where
  aria html dom vision_region visual_text image_relation : PerceptionSource

pub data ElementAction : Type 0 where
  fill click : ElementAction

abbrev pub element_action_text : ElementAction → String
element_action_text fill = "fill"
element_action_text click = "click"

pub record InteractiveElement : Type 0 where
  pub ephemeral_ref : String
  pub role : String
  pub accessible_name : String
  pub label : String
  pub input_type : String
  pub current_value_state : ValueState
  pub enabled : Bool
  pub nearby_text_summary : String
  pub text : String
  pub structural_fingerprint : String
  pub frame_identity : String
  pub action_kind : Option ElementAction
  pub destination : Option String
  pub method : String
  pub binding : Option BrowserTargetBinding
  pub match_count : ℕ
  pub structural_context : String
  pub perception_sources : List PerceptionSource
