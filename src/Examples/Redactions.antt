-- ===== src/Examples/Redactions.antt =====
-- evidence/redaction.py and evidence/evidence_recorder.py on concrete payloads.
use capability_runner.Prelude.{
  String, ◌≡◌, Bool, not, arith, refl, false, none, some, [], ◌∷◌, ◌++◌, ◌==◌, string_eq,
  if◌then◌else◌,
}
use capability_runner.Contracts.Evidence.{
  end, field, text, mapping, number, EvidenceEvent, EvidenceEventType, RedactionContext,
  default_redaction,
}
use capability_runner.Redaction.{
  PayloadLibrary, redact_fields, with_explicit_values, longest_first, EvidenceRecorder, record_line,
}
use capability_runner.Redaction.Sanitized.{apart}
use capability_runner.Redaction.Clean.{HasClean, record_line-clean}

-- A library whose `replace` knows whole texts only
abbrev whole_texts : PayloadLibrary
whole_texts = record {
  casefold = λ s. s;
  replace = λ old new s. if s == old then new else s;
  model_dump = λ event.
      field "component" (text event.component) (field "metadata" (mapping event.metadata) end);
  dumps = λ fields. "{}";
}

abbrev fill_event : EvidenceEvent
fill_event = record {
  event_type = EvidenceEventType.action;
  component = "action-gateway";
  run_id = "run-1";
  session_id = none;
  step_id = none;
  action_id = none;
  outcome = none;
  reason_code = none;
  summary = none;
  metadata = field "value" (text "1234") (field "token" (number 7) end);
}

abbrev plain_event : EvidenceEvent
plain_event = record fill_event { metadata = field "steps" (number 3) end }

abbrev pin : RedactionContext
pin = record default_redaction { explicit_values = "1234" ∷ [] }

abbrev new_recorder : EvidenceRecorder
new_recorder = record { redaction_context = default_redaction; lines = [] }

fill_masked :
    redact_fields whole_texts pin fill_event.metadata
    ≡ field "value" (text "[REDACTED]") (field "token" (text "[REDACTED]") end)
unfolding redact_fields string_eq
fill_masked = refl

longest_come_first :
    longest_first
      (with_explicit_values ("a" ∷ "" ∷ "abc" ∷ "a" ∷ "xy" ∷ []) default_redaction).explicit_values
    ≡ "abc" ∷ "xy" ∷ "a" ∷ []
unfolding longest_first with_explicit_values string_eq
longest_come_first = refl

-- A coarse `value in text`, and a `replace` that replaces the whole of such a text
abbrev shares : String → String → Bool
shares value s = not (apart value s)

abbrev coarse : PayloadLibrary
coarse = record whole_texts { replace = λ old new s. if apart old s then s else new }

whole_texts-absent : (old new s : String) → (s == old) ≡ false → whole_texts.replace old new s ≡ s
whole_texts-absent old new s e = rw e refl

clean_event : HasClean whole_texts (λ old s. s == old) pin (whole_texts.model_dump plain_event)
unfolding HasClean string_eq
clean_event = (refl, (refl, tt), (refl, (refl, tt, tt), tt))

record_line-clean_example :
    (record_line whole_texts plain_event (some pin) new_recorder).lines
    ≡ new_recorder.lines ++ whole_texts.dumps (whole_texts.model_dump plain_event) ∷ []
record_line-clean_example =
    record_line-clean whole_texts (λ old s. s == old) whole_texts-absent plain_event (some pin)
      new_recorder clean_event
