-- ===== src/Redaction/Sanitized.antt =====
-- evidence/redaction.py and evidence/evidence_recorder.py: what a written payload can show.
use capability_runner.Prelude.{
  String, ◌≡◌, ◌≢◌, refl, List, All, ◌==◌, ◌&&◌, ◌||◌, not, nat_eq, arith, Bool, true, false,
  Option, none, some, [], ◌∷◌, ◌⊎◌, inl, inr, if◌then◌else◌, string_eq,
}
use capability_runner.Contracts.Evidence.{
  Value, null, flag, number, text, secret, items, mapping, Values, nil, cons, Fields, end, field,
  RedactionContext,
}
use Prim.Native.Char.{Char, code}
use capability_runner.Redaction.Order.{longest_first-All, longest_first-back}
use capability_runner.Redaction.{
  PayloadLibrary, longest_first, replace_all, redact_text, is_sensitive, redact_text_at,
  redact_value, redact_values, redact_fields,
}

-- No character of one text stands in the other.
abbrev pub has_char : Char → String → Bool
has_char c String.[] = false
has_char c (String.◌∷◌ d s) = code c == code d || has_char c s

abbrev pub apart : String → String → Bool
apart String.[] t = true
apart (String.◌∷◌ c s) t = not (has_char c t) && apart s t

-- What is used of `str.replace`, for a text that is replaced by one that shares no character with it:
-- the old text does not stand in the result any more, and no text comes to stand there that did not
-- stand in the original and that shares no character with the new one. `has value text` is Python's
-- `value in text`.
pub record IsReplace (lib : PayloadLibrary) (has : String → String → Bool) : Type 0 where
  pub removes :
      (old new s : String)
      → old ≢ ""
      → apart old new ≡ true
      → has old (lib.replace old new s) ≡ false
  pub keeps_out :
      (value old new s : String)
      → value ≢ ""
      → apart value new ≡ true
      → has value s ≡ false
      → has value (lib.replace old new s) ≡ false

-- An explicit value that is not empty and has no character of the placeholder.
abbrev pub IsDistinct : RedactionContext → String → Type 0
IsDistinct context value = (value ≢ "") × (apart value context.placeholder ≡ true)

module _ (lib : PayloadLibrary) (has : String → String → Bool) (context : RedactionContext) where
  -- A text that may be written: the placeholder, or one that none of the explicit values stands in.
  abbrev pub IsShown : String → Type 0
  IsShown t = (t ≡ context.placeholder) ⊎ All (λ value. has value t ≡ false) context.explicit_values

  -- The value under a key, which is sensitive or not.
  abbrev pub IsMasked : Bool → Value → Type 0
  IsMasked true value = value ≡ text context.placeholder
  IsMasked false value = Unit

  -- At every depth no secret, under every sensitive key the placeholder, and texts that may be shown
  unfoldable mutual
    pub IsSanitized : Value → Type 0
    IsSanitized null = Unit
    IsSanitized (flag b) = Unit
    IsSanitized (number n) = Unit
    IsSanitized (text t) = IsShown t
    IsSanitized (secret s) = Bool.true ≡ Bool.false
    IsSanitized (items values) = AreSanitized values
    IsSanitized (mapping fields) = HasSanitized fields

    pub AreSanitized : Values → Type 0
    AreSanitized nil = Unit
    AreSanitized (cons value values) = IsSanitized value × AreSanitized values

    pub HasSanitized : Fields → Type 0
    HasSanitized end = Unit
    HasSanitized (field key value fields) =
        IsMasked (is_sensitive lib context key) value × IsSanitized value × HasSanitized fields

module _ (lib : PayloadLibrary) (has : String → String → Bool) (replaces : IsReplace lib has)
    (context : RedactionContext) where
  -- What is out of a text stays out, and each value of the list is out in the end.
  replace_all-keeps_out :
      (value : String) (values : List String) (t : String)
      → IsDistinct context value
      → has value t ≡ false
      → has value (replace_all lib context values t) ≡ false
  unfolding replace_all
  replace_all-keeps_out value [] t d out = out
  replace_all-keeps_out value (old ∷ values) t d out =
      replace_all-keeps_out value values _ d (go (old == ""))
    where
      go : (b : Bool) → has value (if b then t else lib.replace old context.placeholder t) ≡ false
      go true = out
      go false = replaces.keeps_out value old context.placeholder t d.0 d.1 out

  replace_all-removes :
      (values : List String) (t : String)
      → All (IsDistinct context) values
      → All (λ value. has value (replace_all lib context values t) ≡ false) values
  unfolding replace_all
  replace_all-removes [] t all = tt
  replace_all-removes (value ∷ values) t all = (
    replace_all-keeps_out value values _ all.0 (go (value == "") refl),
    replace_all-removes values _ all.1,
  )
    where
      go :
          (b : Bool)
          → (value == "") ≡ b
          → has value (if b then t else lib.replace value context.placeholder t) ≡ false
      go true e = absurd (all.0.0 (ground arith))
      go false e = replaces.removes value context.placeholder t all.0.0 all.0.1

  module _ (distinct : All (IsDistinct context) context.explicit_values) where
    redact_text-out :
        (t : String)
        → All (λ value. has value (redact_text lib context t) ≡ false) context.explicit_values
    unfolding redact_text
    redact_text-out t =
        longest_first-back (λ value. has value (redact_text lib context t) ≡ false)
          context.explicit_values
          (replace_all-removes (longest_first context.explicit_values) t
            (longest_first-All (IsDistinct context) context.explicit_values distinct))

    redact_text_at-IsShown :
        (key : Option String) (t : String)
        → IsShown lib has context (redact_text_at lib context key t)
    unfolding redact_text_at
    redact_text_at-IsShown none t = inr (redact_text-out t)
    redact_text_at-IsShown (some key) t = go (is_sensitive lib context key)
      where
        go :
            (b : Bool)
            → IsShown lib has context (if b then context.placeholder else redact_text lib context t)
        go true = inl refl
        go false = inr (redact_text-out t)

    chosen-IsSanitized :
        (b : Bool) (value : Value)
        → IsSanitized lib has context value
        → IsMasked lib has context b (if b then text context.placeholder else value)
          × IsSanitized lib has context (if b then text context.placeholder else value)
    unfolding IsSanitized
    chosen-IsSanitized true value h = (refl, inl refl)
    chosen-IsSanitized false value h = (tt, h)

    mutual
      unfolding redact_value IsSanitized

      redact_value-IsSanitized :
          (key : Option String) (value : Value)
          → IsSanitized lib has context (redact_value lib context key value)
      redact_value-IsSanitized key null = tt
      redact_value-IsSanitized key (flag b) = tt
      redact_value-IsSanitized key (number n) = tt
      redact_value-IsSanitized key (text t) = redact_text_at-IsShown key t
      redact_value-IsSanitized key (secret s) = inl refl
      redact_value-IsSanitized key (items values) = redact_values-AreSanitized values
      redact_value-IsSanitized key (mapping fields) = redact_fields-HasSanitized fields

      redact_values-AreSanitized :
          (values : Values) → AreSanitized lib has context (redact_values lib context values)
      redact_values-AreSanitized nil = tt
      redact_values-AreSanitized (cons value values) =
          (redact_value-IsSanitized none value, redact_values-AreSanitized values)

      pub redact_fields-HasSanitized :
          (fields : Fields) → HasSanitized lib has context (redact_fields lib context fields)
      redact_fields-HasSanitized end = tt
      redact_fields-HasSanitized (field key value fields) =
          let (m, s) =
            chosen-IsSanitized (is_sensitive lib context key) _
              (redact_value-IsSanitized (some key) value) in
          (m, s, redact_fields-HasSanitized fields)
