-- ===== src/Redaction/Clean.antt =====
-- evidence/redaction.py: payloads with nothing sensitive in them.
use capability_runner.Prelude.{
  String, ◌≡◌, refl, Bool, true, false, Option, none, some, List, [], ◌∷◌, ◌++◌, All, if◌then◌else◌,
  ◌==◌, string_eq, arith,
}
use capability_runner.Contracts.Evidence.{
  Value, null, flag, number, text, secret, items, mapping, Values, nil, cons, Fields, end, field,
  RedactionContext, EvidenceEvent,
}
use capability_runner.Redaction.Order.{longest_first-All}
use capability_runner.Redaction.{
  PayloadLibrary, longest_first, replace_all, redact_text, is_sensitive, redact_text_at,
  redact_value, redact_values, redact_fields, EvidenceRecorder, effective_context, record_line,
}

-- `has value text` is Python's `value in text`.
module _ (lib : PayloadLibrary) (has : String → String → Bool) (context : RedactionContext) where
  -- No secret, no sensitive key, and no explicit value in a text
  unfoldable mutual
    pub IsClean : Value → Type 0
    IsClean null = Unit
    IsClean (flag b) = Unit
    IsClean (number n) = Unit
    IsClean (text t) = All (λ value. has value t ≡ false) context.explicit_values
    IsClean (secret s) = Bool.true ≡ Bool.false
    IsClean (items values) = AreClean values
    IsClean (mapping fields) = HasClean fields

    pub AreClean : Values → Type 0
    AreClean nil = Unit
    AreClean (cons value values) = IsClean value × AreClean values

    pub HasClean : Fields → Type 0
    HasClean end = Unit
    HasClean (field key value fields) =
        (is_sensitive lib context key ≡ false) × IsClean value × HasClean fields

-- What is not in a text is not replaced there.
module _ (lib : PayloadLibrary) (has : String → String → Bool)
    (replace-absent : (old new s : String) → has old s ≡ false → lib.replace old new s ≡ s)
    (context : RedactionContext) where
  replace_all-absent :
      (values : List String) (t : String)
      → All (λ value. has value t ≡ false) values
      → replace_all lib context values t ≡ t
  unfolding replace_all
  replace_all-absent [] t all = refl
  replace_all-absent (value ∷ values) t all =
      rw (unchanged (value == "")) (replace_all-absent values t all.1)
    where
      unchanged : (b : Bool) → (if b then t else lib.replace value context.placeholder t) ≡ t
      unchanged true = refl
      unchanged false = replace-absent value context.placeholder t all.0

  redact_text-absent :
      (t : String)
      → All (λ value. has value t ≡ false) context.explicit_values
      → redact_text lib context t ≡ t
  unfolding redact_text
  redact_text-absent t all =
      replace_all-absent (longest_first context.explicit_values) t
        (longest_first-All (λ value. has value t ≡ false) context.explicit_values all)

  mutual
    unfolding redact_value IsClean redact_text_at

    clean_value :
        (key : String) (value : Value)
        → is_sensitive lib context key ≡ false
        → IsClean lib has context value
        → redact_value lib context (some key) value ≡ value
    clean_value key null e h = refl
    clean_value key (flag b) e h = refl
    clean_value key (number n) e h = refl
    clean_value key (text t) e h = rw (e, redact_text-absent t h) refl
    clean_value key (secret s) e h = ground arith
    clean_value key (items values) e h = rw (clean_values values h) refl
    clean_value key (mapping fields) e h = rw (clean_payload fields h) refl

    clean_item :
        (value : Value)
        → IsClean lib has context value
        → redact_value lib context none value ≡ value
    clean_item null h = refl
    clean_item (flag b) h = refl
    clean_item (number n) h = refl
    clean_item (text t) h = rw (redact_text-absent t h) refl
    clean_item (secret s) h = ground arith
    clean_item (items values) h = rw (clean_values values h) refl
    clean_item (mapping fields) h = rw (clean_payload fields h) refl

    clean_values :
        (values : Values)
        → AreClean lib has context values
        → redact_values lib context values ≡ values
    clean_values nil h = refl
    clean_values (cons value values) h = rw (clean_item value h.0, clean_values values h.1) refl

    clean_payload :
        (fields : Fields)
        → HasClean lib has context fields
        → redact_fields lib context fields ≡ fields
    clean_payload end h = refl
    clean_payload (field key value fields) h =
        rw (h.0, clean_value key value h.0 h.1, clean_payload fields h.2) refl

-- Redaction does not touch what has nothing sensitive in it: a payload without a secret and without a
-- sensitive key, at any depth, whose texts do not have an explicit value in them, is recorded as it
-- is. Of `str.replace` it is used that it keeps a text that does not have the old one in it.
pub record_line-clean :
    (lib : PayloadLibrary) (has : String → String → Bool)
    (replace-absent : (old new s : String) → has old s ≡ false → lib.replace old new s ≡ s)
    (event : EvidenceEvent) (context : Option RedactionContext) (recorder : EvidenceRecorder)
    → HasClean lib has (effective_context context recorder) (lib.model_dump event)
    → (record_line lib event context recorder).lines
      ≡ recorder.lines ++ lib.dumps (lib.model_dump event) ∷ []
unfolding record_line
record_line-clean lib has replace-absent event context recorder h =
    rw
      (clean_payload lib has replace-absent (effective_context context recorder)
        (lib.model_dump event) h)
      refl
