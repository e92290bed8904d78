-- ===== src/DeployContract/Aliases.antt =====
-- A preview alias makes a slot of the pattern, but for an underscore in a branch name.
use text.Mathlib.TextLemmas.{append_assoc}
use infra.Prelude.{
  String, ◌<>◌, Bool, true, ◌≡◌, sym, ◌∙◌, ap, arith, str_eq, if◌then◌else◌, inl, inr,
}
use infra.Prelude.Text.{take_chars}
use infra.DeployEnv.{
  AliasValue, branch_text, is_branch_value, is_pr_value, is_sha7, is_tag_value, slug_of,
}
use infra.DeployEnv.Slugs.{
  slug_text, has_no_underscore, first_then-slug_text, is_version-slug_text, take_chars-hex,
}
use infra.DeployEnv.Normal.{Normal}
use infra.DeployContract.{matches_slot}
use infra.DeployContract.Prefixes.{
  matches_slot-branch, matches_slot-pr, matches_slot-commit, matches_slot-tag,
}

-- Of the kinds, only a branch can be named so that its alias is no slot.
abbrev pub fits_slot : String → AliasValue → Bool
fits_slot kind value = if str_eq kind "branch" then has_no_underscore (branch_text value) else true

abbrev slot_of : String × String → String
slot_of n = n.0 <> "-" <> slug_of n.0 n.1

branch_slot :
    (v : String)
    → is_branch_value v ≡ true
    → matches_slot (slot_of ("branch", v)) ≡ has_no_underscore v
unfolding slug_of
branch_slot v h =
    ap matches_slot (sym (append_assoc "branch" "-" (slug_text v)))
    ∙ matches_slot-branch (slug_text v)
    ∙ first_then-slug_text v h

pr_slot : (v : String) → is_pr_value v ≡ true → matches_slot (slot_of ("pr", v)) ≡ true
unfolding slug_of
pr_slot v h = ap matches_slot (sym (append_assoc "pr" "-" v)) ∙ matches_slot-pr v ∙ h

commit_slot :
    (v : String) → is_sha7 v ≡ true → matches_slot (slot_of ("commit", take_chars 7 v)) ≡ true
unfolding slug_of
commit_slot v h =
    ap matches_slot (sym (append_assoc "commit" "-" (take_chars 7 v)))
    ∙ matches_slot-commit (take_chars 7 v)
    ∙ ground (arith, take_chars-hex 7 v)

tag_slot : (v : String) → is_tag_value v ≡ true → matches_slot (slot_of ("tag", v)) ≡ true
unfolding slug_of
tag_slot v h =
    ap matches_slot (sym (append_assoc "tag" "-" (slug_text v)))
    ∙ matches_slot-tag (slug_text v)
    ∙ is_version-slug_text v h

pub Normal-slot :
    (kind : String) (value : AliasValue) (n : String × String)
    → Normal kind value n
    → matches_slot (slot_of n) ≡ fits_slot kind value
Normal-slot kind value n (inl (branch, (ok, e))) =
    ap (λ m. matches_slot (slot_of m)) e ∙ branch_slot _ ok ∙ ground arith
Normal-slot kind value n (inr (other, inl (ok, e))) =
    ap (λ m. matches_slot (slot_of m)) e ∙ pr_slot _ ok ∙ ground arith
Normal-slot kind value n (inr (other, inr (inl (ok, e)))) =
    ap (λ m. matches_slot (slot_of m)) e ∙ commit_slot _ ok ∙ ground arith
Normal-slot kind value n (inr (other, inr (inr (ok, e)))) =
    ap (λ m. matches_slot (slot_of m)) e ∙ tag_slot _ ok ∙ ground arith
