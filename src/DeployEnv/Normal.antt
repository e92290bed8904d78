-- ===== src/DeployEnv/Normal.antt =====
-- `_normalize_alias`, kind by kind, and what `preview_alias` derives from it.
use mathlib.Core.Option.{some-injective}
use infra.Prelude.{
  String, Bool, true, false, Option, none, some, ◌≡◌, refl, sym, ◌⊎◌, inl, inr, str_eq,
  if◌then◌else◌, arith,
}
use infra.Prelude.Text.{lower, strip, take_chars}
use infra.Prelude.Errors.{◌>>◌, require, require-some}
use infra.DeployEnv.{
  AliasValue, text_of, branch_text, is_branch_value, is_pr_value, is_sha7, is_tag_value,
  normalize_alias,
}

module _ (kind : String) (value : AliasValue) where
  -- What a normalized alias is.
  abbrev pub Normal : String × String → Type 0
  Normal n =
      ((str_eq kind "branch" ≡ true)
        × ((is_branch_value (branch_text value) ≡ true) × (n ≡ ("branch", branch_text value))))
      ⊎ ((str_eq kind "branch" ≡ false)
          × (((is_pr_value (strip (text_of value)) ≡ true) × (n ≡ ("pr", strip (text_of value))))
              ⊎ (((is_sha7 (lower (strip (text_of value))) ≡ true)
                    × (n ≡ ("commit", take_chars 7 (lower (strip (text_of value))))))
                  ⊎ ((is_tag_value (strip (text_of value)) ≡ true)
                      × (n ≡ ("tag", strip (text_of value)))))))

  required :
      (test : Bool) (m n : String × String)
      → (require test >> some m) ≡ some n
      → (test ≡ true) × (n ≡ m)
  required test m n e =
      let (passed, same) = require-some test (some m) n e in (passed, sym (some-injective m n same))

  chosen :
      (test : Bool) (x y : Option (String × String)) (n : String × String)
      → (if test then x else y) ≡ some n
      → ((test ≡ true) × (x ≡ some n)) ⊎ ((test ≡ false) × (y ≡ some n))
  chosen true x y n e = inl (refl, e)
  chosen false x y n e = inr (refl, e)

  -- The kinds' results, and what the tests leave.
  abbrev as_branch : Option (String × String)
  as_branch = require (is_branch_value (branch_text value)) >> some ("branch", branch_text value)

  abbrev as_pr : Option (String × String)
  as_pr = require (is_pr_value (strip (text_of value))) >> some ("pr", strip (text_of value))

  abbrev as_commit : Option (String × String)
  as_commit =
      require (is_sha7 (lower (strip (text_of value))))
      >> some ("commit", take_chars 7 (lower (strip (text_of value))))

  abbrev as_tag : Option (String × String)
  as_tag = require (is_tag_value (strip (text_of value))) >> some ("tag", strip (text_of value))

  abbrev not_commit : Option (String × String)
  not_commit = if str_eq kind "tag" then as_tag else none

  abbrev not_pr : Option (String × String)
  not_pr = if str_eq kind "commit" then as_commit else not_commit

  abbrev not_branch : Option (String × String)
  not_branch = if str_eq kind "pr" then as_pr else not_pr

  pub normalize_alias-Normal :
      (n : String × String) → normalize_alias kind value ≡ some n → Normal n
  unfolding normalize_alias
  normalize_alias-Normal n e = elim (chosen (str_eq kind "branch") as_branch not_branch n e) [
    | inl (branch, e₁) ↦ inl (branch, required _ _ n e₁)
    | inr (other, e₁) ↦ inr (
      other,
      elim (chosen (str_eq kind "pr") as_pr not_pr n e₁) [
        | inl (_, e₂) ↦ inl (required _ _ n e₂)
        | inr (_, e₂) ↦ elim (chosen (str_eq kind "commit") as_commit not_commit n e₂) [
          | inl (_, e₃) ↦ inr (inl (required _ _ n e₃))
          | inr (_, e₃) ↦ elim (chosen (str_eq kind "tag") as_tag none n e₃) [
            | inl (_, e₄) ↦ inr (inr (required _ _ n e₄))
            | inr (_, e₄) ↦ ground arith
          ]
        ]
      ],
    )
  ]
