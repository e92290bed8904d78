-- ===== src/DeployContract/Prefixes.antt =====
-- A prefix that is put before a text is found again.
use Prim.Native.Char.{Char, code}
use Prim.Native.String.{[], ◌∷◌, count}
use text.Mathlib.TextLemmas.{nil-append, cons-append}
use infra.Prelude.{String, ◌<>◌, some, Bool, false, none, not, ◌&&◌, ◌==◌, ◌≡◌, refl, ap, arith}
use infra.Prelude.Text.{after_prefix, first_then, all_chars, is_digit, is_hex, is_version}
use infra.DeployEnv.{is_pr_value}
use infra.DeployEnv.Slugs.{is_slug_char}
use infra.DeployContract.{ServiceSpec, after_is, matches_slot, is_valid_preview_sub_domain}

pub after_prefix-append : (p s : String) → after_prefix p (p <> s) ≡ some s
unfolding after_prefix
after_prefix-append [] s = rw (nil-append s) refl
after_prefix-append (c ∷ p) s = rw (cons-append c p s) (ground (arith, after_prefix-append p s))

pub after_is-append : (p : String) (q : String → Bool) (s : String) → after_is p q (p <> s) ≡ q s
after_is-append p q s =
    ap (λ o. elim o [ none ↦ false | some rest ↦ q rest ]) (after_prefix-append p s)

-- A sub-domain of the base is a preview slot if what follows the base is one.
pub is_valid_preview_sub_domain-append :
    (spec : ServiceSpec) (suffix : String)
    → is_valid_preview_sub_domain spec (spec.base_subdomain <> suffix)
      ≡ after_is "-" matches_slot suffix
unfolding is_valid_preview_sub_domain
is_valid_preview_sub_domain-append spec suffix =
    after_is-append spec.base_subdomain (after_is "-" matches_slot) suffix

-- A text that begins with another character does not have the prefix.
after_prefix-other :
    (p c : Char) (ps cs s : String)
    → (code p == code c) ≡ false
    → after_prefix (p ∷ ps) ((c ∷ cs) <> s) ≡ none
unfolding after_prefix
after_prefix-other p c ps cs s differ = rw (cons-append c cs s) (ground arith)

after_is-other :
    (p c : Char) (ps cs : String) (q : String → Bool) (s : String)
    → (code p == code c) ≡ false
    → after_is (p ∷ ps) q ((c ∷ cs) <> s) ≡ false
after_is-other p c ps cs q s differ =
    ap (λ o. elim o [ none ↦ false | some rest ↦ q rest ]) (after_prefix-other p c ps cs s differ)

module _ (slug : String) where
  pub matches_slot-branch :
      matches_slot ("branch-" <> slug) ≡ first_then is_slug_char is_slug_char slug
  unfolding matches_slot
  matches_slot-branch = ground (
    arith,
    after_is-append "branch-" (first_then is_slug_char is_slug_char) slug,
    after_is-other "p" "b" "r-" "ranch-"
        (first_then (λ c. is_digit c && not (code c == b'0')) is_digit) slug refl,
    after_is-other "c" "b" "ommit-" "ranch-" (λ s. count s == 7 && all_chars is_hex s) slug refl,
    after_is-other "t" "b" "ag-" "ranch-" (is_version b'-') slug refl,
  )

  pub matches_slot-pr : matches_slot ("pr-" <> slug) ≡ is_pr_value slug
  unfolding matches_slot
  matches_slot-pr = ground (
    arith,
    after_is-other "b" "p" "ranch-" "r-" (first_then is_slug_char is_slug_char) slug refl,
    after_is-append "pr-" (first_then (λ c. is_digit c && not (code c == b'0')) is_digit) slug,
    after_is-other "c" "p" "ommit-" "r-" (λ s. count s == 7 && all_chars is_hex s) slug refl,
    after_is-other "t" "p" "ag-" "r-" (is_version b'-') slug refl,
  )

  pub matches_slot-commit :
      matches_slot ("commit-" <> slug) ≡ (count slug == 7 && all_chars is_hex slug)
  unfolding matches_slot
  matches_slot-commit = ground (
    arith,
    after_is-other "b" "c" "ranch-" "ommit-" (first_then is_slug_char is_slug_char) slug refl,
    after_is-other "p" "c" "r-" "ommit-"
        (first_then (λ c. is_digit c && not (code c == b'0')) is_digit) slug refl,
    after_is-append "commit-" (λ s. count s == 7 && all_chars is_hex s) slug,
    after_is-other "t" "c" "ag-" "ommit-" (is_version b'-') slug refl,
  )

  pub matches_slot-tag : matches_slot ("tag-" <> slug) ≡ is_version b'-' slug
  unfolding matches_slot
  matches_slot-tag = ground (
    arith,
    after_is-other "b" "t" "ranch-" "ag-" (first_then is_slug_char is_slug_char) slug refl,
    after_is-other "p" "t" "r-" "ag-"
        (first_then (λ c. is_digit c && not (code c == b'0')) is_digit) slug refl,
    after_is-other "c" "t" "ommit-" "ag-" (λ s. count s == 7 && all_chars is_hex s) slug refl,
    after_is-append "tag-" (is_version b'-') slug,
  )
