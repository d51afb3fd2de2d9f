-- ===== src/Contracts/Actions.antt =====
-- contracts/targets.py and contracts/actions.py: what an action asks of a surface.
use capability_runner.Prelude.{ℕ, String, Option}

-- pydantic's `HttpUrl`, by its text.
abbrev pub HttpUrl : Type 0
HttpUrl = String

pub data TargetSpec : Type 0 where
  url_target : HttpUrl → Option String → TargetSpec
  profile_target : String → String → Option HttpUrl → TargetSpec

pub data Button : Type 0 where
  left middle right : Button

-- pydantic's `SecretStr`, whose value only `get_secret_value` reveals.
pub record SecretStr : Type 0 where
  pub secret_value : String

-- The seconds of a wait, a float in the source, are counted in microseconds.
pub data ActionSpec : Type 0 where
  click_action : TargetSpec → Button → ActionSpec
  fill_action : TargetSpec → SecretStr → ActionSpec
  navigate_action : HttpUrl → ActionSpec
  wait_action : ℕ → ActionSpec

-- `action.kind`
unfoldable pub action_kind : ActionSpec → String
action_kind (click_action target button) = "click"
action_kind (fill_action target value) = "fill"
action_kind (navigate_action url) = "navigate"
action_kind (wait_action seconds) = "wait"
