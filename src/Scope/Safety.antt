-- ===== src/Scope/Safety.antt =====
-- What the read-only scope guarantees of an action on a page it has not been prepared for.
use capability_runner.Prelude.{
  String, ◌<>◌, ◌≡◌, ◌⊎◌, Bool, true, false, some, List, [], ◌∷◌, not, ◌&&◌, ◌||◌, ◌==◌, string_eq,
  begins_with, contains_text, rstrip_slash, if◌then◌else◌,
}
use mathlib.Core.List.{Memᴰ}
use capability_runner.Contracts.Browser.{BrowserScope}
use capability_runner.Scope.{PageLibrary, PageUrl, origin_of_parts, decode, at_front}

-- One word stands in a text as a word of its own, behind a character of a word or not.
unfoldable pub has_word : PageLibrary → String → Bool → String → Bool
has_word lib word behind String.[] = false
has_word lib word behind (String.◌∷◌ c s) =
    (not behind && at_front lib word (String.◌∷◌ c s)) || has_word lib word (lib.is_word c) s

-- A URL of the scope: it splits, its origin is the scope's, and its path, decoded up to three times,
-- has no backslash and does not begin with two slashes; normalized, it is a read-only path of the
-- scope or lies below one.
pub record InScope (lib : PageLibrary) (scope : BrowserScope) (url : String) : Type 0 where
  pub parts : PageUrl
  pub splits : lib.urlsplit url ≡ some parts
  pub origin : origin_of_parts lib parts ≡ some scope.origin
  pub no_backslash :
      contains_text (decode lib 3 (if parts.path == "" then "/" else parts.path)) "\\" ≡ false
  pub one_slash :
      begins_with (decode lib 3 (if parts.path == "" then "/" else parts.path)) "//" ≡ false
  pub prefix : String
  pub declared : Memᴰ prefix scope.read_only_paths
  pub below :
      let path = lib.normpath (decode lib 3 (if parts.path == "" then "/" else parts.path)) in
      (path ≡ prefix) ⊎ (begins_with path (rstrip_slash prefix <> "/") ≡ true)
