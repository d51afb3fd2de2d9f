-- ===== src/Scope.antt =====
-- The operator's read-only scope: `origin_of`, `within_scope` and `method_allowed` of
-- surfaces/browser_observation.py, and `observed_action_allowed` of interaction/policy_guard.py.
--
-- Python's `urlsplit`, `unquote`, `normpath`, `lower`, the printing of a port, and of `re` the
-- class `\w` and what `IGNORECASE` takes for the same letter, are library code, given as `PageLibrary`. A `ValueError` is `none`;
-- `urlsplit` fails for a URL whose port is out of range, which Python reports only when `port` is read.
pub mod Safety
use capability_runner.Prelude.{
  ℕ, zero, suc, String, ◌<>◌, Bool, true, false, Option, none, some, List, [], ◌∷◌, ◌==◌, string_eq,
  nat_eq, option_eq, any, contains, ◌&&◌, ◌||◌, is_some, not, if◌then◌else◌, contains_text,
  begins_with, rstrip_slash,
}
use Prim.Native.Char.{Char}
use capability_runner.Contracts.Browser.{BrowserScope, InteractiveElement}

pub record PageUrl : Type 0 where
  pub scheme : String
  pub username : Option String
  pub password : Option String
  pub hostname : Option String
  pub port : Option ℕ
  pub path : String
  pub fragment : String

pub record PageLibrary : Type 0 where
  pub urlsplit : String → Option PageUrl
  pub unquote : String → String
  pub normpath : String → String
  pub lower : String → String
  pub decimal : ℕ → String
  -- of `re`: whether two letters are the same under `IGNORECASE`, and the class `\w`
  pub same_letter : Char → Char → Bool
  pub is_word : Char → Bool

-- Whether Python takes an optional text for true.
abbrev pub truthy : Option String → Bool
truthy none = false
truthy (some s) = not (s == "")

abbrev pub text_or_empty : Option String → String
text_or_empty none = ""
text_or_empty (some s) = s

-- `f":{port}"` for a port that is given and is not the scheme's own.
unfoldable pub port_suffix : PageLibrary → String → Option ℕ → String
port_suffix lib scheme none = ""
port_suffix lib scheme (some port) =
    if port == 0 || port == (if scheme == "https" then 443 else 80)
    then ""
    else ":" <> lib.decimal port

unfoldable pub origin_of_parts : PageLibrary → PageUrl → Option String
unfolding port_suffix
origin_of_parts lib u =
    if not (u.scheme == "http" || u.scheme == "https") || not (truthy u.hostname)
    then none
    else if truthy u.username || truthy u.password || not (u.fragment == "")
    then none
    else some (
        u.scheme
        <> "://"
        <> lib.lower (text_or_empty u.hostname)
        <> port_suffix lib u.scheme u.port)

unfoldable pub origin_of : PageLibrary → String → Option String
unfolding origin_of_parts
origin_of lib url = elim (lib.urlsplit url) [ none ↦ none | some u ↦ origin_of_parts lib u ]

-- `for _ in range(rounds)`: decode until nothing changes.
unfoldable pub decode : PageLibrary → ℕ → String → String
decode lib zero path = path
decode lib (suc rounds) path =
    let rest = decode lib rounds (lib.unquote path) in
    if lib.unquote path == path then path else rest

-- `path == prefix or path.startswith(prefix.rstrip("/") + "/")`
unfoldable pub under : String → String → Bool
under path prefix = path == prefix || begins_with path (rstrip_slash prefix <> "/")

unfoldable pub path_allowed : PageLibrary → BrowserScope → String → Bool
unfolding under
path_allowed lib scope decoded =
    if contains_text decoded "\\" || begins_with decoded "//"
    then false
    else any (under (lib.normpath decoded)) scope.read_only_paths

unfoldable pub within_scope : PageLibrary → String → BrowserScope → Bool
unfolding origin_of decode path_allowed
within_scope lib url scope = elim (lib.urlsplit url) [
  | none ↦ false
  | some u ↦
      path_allowed lib scope (decode lib 3 (if u.path == "" then "/" else u.path))
      && origin_of_parts lib u == some scope.origin
]

-- `urlsplit(url).path`, where the URL is known to be within the scope
abbrev pub path_of : PageLibrary → String → Option String
path_of lib url = elim (lib.urlsplit url) [ none ↦ none | some u ↦ some u.path ]

abbrev pub listed : Option String → List String → Bool
listed none paths = false
listed (some path) paths = contains paths path

unfoldable pub method_allowed : PageLibrary → String → String → BrowserScope → Bool
method_allowed lib method url scope =
    within_scope lib url scope
    && (method == "GET"
        || (method == "POST" && listed (path_of lib url) scope.read_only_post_paths))

abbrev pub destructive_words : List String
destructive_words =
    "delete" ∷ "remove" ∷ "close" ∷ "transfer" ∷ "submit payment" ∷ "purchase" ∷ "send" ∷ "logout"
    ∷ "sign out" ∷ "disable" ∷ "erase" ∷ "reset" ∷ "terminate" ∷ []

-- A word at the front of a text, and `\b` behind it
unfoldable pub at_front : PageLibrary → String → String → Bool
at_front lib String.[] String.[] = true
at_front lib String.[] (String.◌∷◌ c s) = not (lib.is_word c)
at_front lib (String.◌∷◌ d word) String.[] = false
at_front lib (String.◌∷◌ d word) (String.◌∷◌ c s) = lib.same_letter d c && at_front lib word s

-- `re.search(rf"\b({words})\b", text, re.IGNORECASE)`, behind a character of a word or not
unfoldable pub search_words : PageLibrary → List String → Bool → String → Bool
unfolding at_front
search_words lib words behind String.[] = false
search_words lib words behind (String.◌∷◌ c s) =
    (not behind && any (λ word. at_front lib word (String.◌∷◌ c s)) words)
    || search_words lib words (lib.is_word c) s

unfoldable pub observed_action_allowed : PageLibrary → InteractiveElement → BrowserScope → Bool
unfolding search_words
observed_action_allowed lib element scope =
    if not element.enabled || not (element.match_count == 1)
    then false
    else if search_words lib destructive_words false element.accessible_name
    then false
    else elim element.action_kind [
      | none ↦ false
      | some kind ↦ elim element.destination [
        | none ↦ false
        | some url ↦ method_allowed lib element.method url scope
      ]
    ]
