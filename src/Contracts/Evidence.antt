-- ===== src/Contracts/Evidence.antt =====
-- contracts/evidence.py: evidence events and the values of their metadata; the redaction context of
-- evidence/redaction.py. The event's identifier and time come from the platform and are left out.
use capability_runner.Prelude.{ℕ, String, Bool, Option, List, []}

mutual
  pub data Value : Type 0 where
    null : Value
    flag : Bool → Value
    number : ℕ → Value
    text : String → Value
    secret : String → Value
    items : Values → Value
    mapping : Fields → Value

  pub data Values : Type 0 where
    nil : Values
    cons : Value → Values → Values

  pub data Fields : Type 0 where
    end : Fields
    field : String → Value → Fields → Fields

pub data EvidenceEventType : Type 0 where
  lifecycle action policy outcome error intervention : EvidenceEventType

pub record EvidenceEvent : Type 0 where
  pub event_type : EvidenceEventType
  pub component : String
  pub run_id : String
  pub session_id : Option String
  pub step_id : Option String
  pub action_id : Option String
  pub outcome : Option String
  pub reason_code : Option String
  pub summary : Option String
  pub metadata : Fields

pub record RedactionContext : Type 0 where
  pub explicit_values : List String
  pub placeholder : String

abbrev pub default_redaction : RedactionContext
default_redaction = record { explicit_values = []; placeholder = "[REDACTED]" }
