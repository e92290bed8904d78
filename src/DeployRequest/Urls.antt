-- ===== src/DeployRequest/Urls.antt =====
-- libs/app_deploy_request.py: the URLs of the evidence, by Python's `urlparse`. Control characters and
-- brackets in a URL are not modelled.
use Prim.Native.Char.{Char, code}
use Prim.Native.String.{String, [], ◌∷◌}
use infra.Prelude.{
  ◌<>◌, Bool, not, ◌&&◌, ◌||◌, Option, none, some, ◌==◌, leb, str_eq, starts_with, if◌then◌else◌,
}
use infra.Prelude.Text.{
  lower, split_once, first_then, is_digit, is_lower_letter, after_prefix, contains_text,
}
use infra.Prelude.Errors.{require}

pub record Url : Type 0 where
  pub scheme : String
  pub netloc : String
  pub path : String
  pub params : String
  pub query : String
  pub fragment : String

abbrev is_letter : Char → Bool
is_letter c = is_lower_letter c || (leb b'A' (code c) && leb (code c) b'Z')

abbrev is_scheme_char : Char → Bool
is_scheme_char c = is_letter c || is_digit c || code c == b'+' || code c == b'-' || code c == b'.'

abbrev or_empty : Option String → String
or_empty none = ""
or_empty (some s) = s

-- The scheme, if the text starts with one, and the rest.
abbrev split_scheme : String → String × String
split_scheme url =
    let (before, after) = split_once b':' url in
    elim after [
      | none ↦ ("", url)
      | some rest ↦
          if first_then is_letter is_scheme_char before then (lower before, rest) else ("", url)
    ]

-- `_splitnetloc`: up to the first of `/?#`
before_path : String → String × String
before_path [] = ([], [])
before_path (c ∷ s) =
    let (netloc, rest) = before_path s in
    if code c == b'/' || code c == b'?' || code c == b'#' then ([], c ∷ s) else (c ∷ netloc, rest)

abbrev split_netloc : String → String × String
split_netloc s = elim (after_prefix "//" s) [ none ↦ ("", s) | some rest ↦ before_path rest ]

-- `_splitparams`: at the first `;` of the last segment
split_params : String → String × String
split_params [] = ([], [])
split_params (c ∷ s) =
    let (path, params) = split_params s in
    if code c == b';' && not (contains_text "/" s) then ([], s) else (c ∷ path, params)

-- `urlparse`; the scheme is one that has parameters.
unfoldable pub urlparse : String → Url
unfolding split_once first_then lower after_prefix before_path split_params contains_text
urlparse url =
    let (scheme, rest) = split_scheme url in
    let (netloc, rest₁) = split_netloc rest in
    let (rest₂, fragment) = split_once b'#' rest₁ in
    let (rest₃, query) = split_once b'?' rest₂ in
    let (path, params) = split_params rest₃ in
    record {
      scheme = scheme;
      netloc = netloc;
      path = path;
      params = params;
      query = or_empty query;
      fragment = or_empty fragment;
    }

-- The test of `_require_github_path`.
abbrev pub on_github : Url → (prefix : String) → Bool
on_github url prefix =
    str_eq url.scheme "https" && str_eq url.netloc "github.com" && starts_with url.path prefix

unfoldable pub require_github_path : (url prefix : String) → Option (Unit {0})
unfolding urlparse
require_github_path url prefix = require (on_github (urlparse url) prefix)

-- `_github_evidence_number`: what follows the prefix, if it is a number and nothing more.
abbrev number_of : Url → (prefix : String) → Option String
number_of url prefix = elim (after_prefix prefix url.path) [
  | none ↦ none
  | some number ↦
      if str_eq url.scheme "https"
        && str_eq url.netloc "github.com"
        && first_then is_digit is_digit number
        && str_eq url.params ""
        && str_eq url.query ""
        && str_eq url.fragment ""
      then some number
      else none
]

unfoldable pub github_evidence_number : (url repository resource : String) → Option String
unfolding urlparse after_prefix first_then
github_evidence_number url repository resource =
    number_of (urlparse url) ("/" <> repository <> "/" <> resource <> "/")
