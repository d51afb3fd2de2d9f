-- ===== src/Redaction.antt =====
-- evidence/redaction.py: what is taken out of an evidence payload before it is written; and
-- evidence/evidence_recorder.py, which appends the payload to the file of its run.
--
-- `str.casefold`, `str.replace`, pydantic's `model_dump` and `json.dumps` are library code, given as
-- `PayloadLibrary`. Of the directory and the file only the lines are modelled, and their writing
-- succeeds.
pub mod Order
pub mod Sanitized
pub mod Clean
use capability_runner.Prelude.{
  String, Bool, true, false, Option, none, some, List, [], ◌∷◌, ◌++◌, contains, leb, if◌then◌else◌,
  ◌==◌, ◌||◌, string_eq,
}
use capability_runner.Contracts.Evidence.{
  Value, null, flag, number, text, secret, items, mapping, Values, nil, cons, Fields, end, field,
  RedactionContext, EvidenceEvent,
}
use capability_runner.Replay.Checks.{text_length}

pub record PayloadLibrary : Type 0 where
  pub casefold : String → String
  -- `text.replace(old, new)`
  pub replace : String → String → String → String
  pub model_dump : EvidenceEvent → Fields
  pub dumps : Fields → String

abbrev pub sensitive_keys : List String
sensitive_keys =
    "password" ∷ "passwd" ∷ "secret" ∷ "token" ∷ "api_key" ∷ "authorization" ∷ "cookie"
    ∷ "set_cookie" ∷ []

-- `frozenset(value for value in values if value)`, in the order of the values
unfoldable pub distinct_values : List String → List String → List String
distinct_values seen [] = []
distinct_values seen (value ∷ values) =
    let rest = distinct_values (value ∷ seen) values in
    if contains seen value || value == "" then rest else value ∷ rest

-- `with_explicit_values`
unfoldable pub with_explicit_values : List String → RedactionContext → RedactionContext
unfolding distinct_values
with_explicit_values values context = record context {
  explicit_values = distinct_values [] (context.explicit_values ++ values);
}

-- `sorted(values, key=len, reverse=True)`: values of one length keep their order.
unfoldable pub place : String → List String → List String
place value [] = value ∷ []
place value (x ∷ xs) =
    let rest = place value xs in
    if leb (text_length x) (text_length value) then value ∷ x ∷ xs else x ∷ rest

unfoldable pub longest_first : List String → List String
unfolding place
longest_first [] = []
longest_first (value ∷ values) = place value (longest_first values)

module _ (lib : PayloadLibrary) (context : RedactionContext) where
  unfoldable pub replace_all : List String → String → String
  replace_all [] redacted = redacted
  replace_all (value ∷ values) redacted =
      replace_all values
        (if value == "" then redacted else lib.replace value context.placeholder redacted)

  -- `_redact_text`
  unfoldable pub redact_text : String → String
  unfolding replace_all longest_first
  redact_text = replace_all (longest_first context.explicit_values)

  abbrev pub is_sensitive : String → Bool
  is_sensitive key = contains sensitive_keys (lib.casefold key)

  -- A text, under the key that it stands at if any
  unfoldable pub redact_text_at : Option String → String → String
  unfolding redact_text
  redact_text_at none value = redact_text value
  redact_text_at (some key) value =
      if is_sensitive key then context.placeholder else redact_text value

  -- `redact_value`: a field of the dict is masked before its value is looked at.
  unfoldable mutual
    unfolding redact_text_at

    pub redact_value : Option String → Value → Value
    redact_value key null = null
    redact_value key (flag b) = flag b
    redact_value key (number n) = number n
    redact_value key (text value) = text (redact_text_at key value)
    redact_value key (secret value) = text context.placeholder
    redact_value key (items values) = items (redact_values values)
    redact_value key (mapping fields) = mapping (redact_fields fields)

    pub redact_values : Values → Values
    redact_values nil = nil
    redact_values (cons value values) = cons (redact_value none value) (redact_values values)

    -- `redact_event_payload` as well: a payload is a mapping, and so is what becomes of it.
    pub redact_fields : Fields → Fields
    redact_fields end = end
    redact_fields (field key value fields) =
        let rest = redact_fields fields in
        let inner = redact_value (some key) value in
        field key (if is_sensitive key then text context.placeholder else inner) rest

-- `EvidenceRecorder`: the context it was made with, and the lines of its file
pub record EvidenceRecorder : Type 0 where
  pub redaction_context : RedactionContext
  pub lines : List String

abbrev pub effective_context : Option RedactionContext → EvidenceRecorder → RedactionContext
effective_context none recorder = recorder.redaction_context
effective_context (some context) recorder = context

-- `EvidenceRecorder.record`
unfoldable pub record_line :
    PayloadLibrary → EvidenceEvent → Option RedactionContext → EvidenceRecorder → EvidenceRecorder
unfolding redact_value
record_line lib event context recorder =
    let payload = redact_fields lib (effective_context context recorder) (lib.model_dump event) in
    record recorder { lines = recorder.lines ++ lib.dumps payload ∷ [] }
