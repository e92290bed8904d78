-- ===== src/SyncRunner/Apart.antt =====
-- bootstrap/06.iac_runner/sync_runner.py: the suffixes of the environments.
use Prim.Native.Char.{Char, code}
use Prim.Native.String.{String, [], ◌∷◌}
use infra.Prelude.{
  true, false, not, ◌||◌, some, ◌==◌, ◌≡◌, refl, sym, subst, ap, ◌∙◌, ◌⊎◌, inl, inr, arith, str_eq,
  eq_iff, if◌then◌else◌, Bool-cases,
}
use mathlib.Core.Option.{some-injective}
use text.Mathlib.TextEquality.{Char-path}
use infra.Prelude.Text.{lower, strip, replace_char}
use infra.Prelude.Errors.{◌>>◌, require, seq-some, require-some, require-true}
use infra.SyncRunner.Environments.{
  Overrides, env_name_of, has_separator, suffix_of, overrides_of, deploy_env_overrides,
}

char_from_code :
    (c d : Char)
    → (code c == b'-') ≡ false
    → (code d == b'-') ≡ false
    → (if code c == b'_' then "-" else c) ≡ (if code d == b'_' then "-" else d)
    → c ≡ d
char_from_code c d h k e =
    let codes : (if code c == b'_' then b'-' else code c)
        ≡ (if code d == b'_' then b'-' else code d) =
      code_if c ∙ ap code e ∙ sym (code_if d) in
    Char-path c d (ground arith)
  where
    code_if :
        (x : Char)
        → (if code x == b'_' then b'-' else code x) ≡ code (if code x == b'_' then "-" else x)
    code_if x = elim (Bool-cases (code x == b'_')) [
      | inl same ↦ rw same refl
      | inr differ ↦ rw differ refl
    ]

-- A text from its image under the replacement, if it has no dash.
replace_char-injective :
    (s t : String)
    → has_separator s ≡ false
    → has_separator t ≡ false
    → replace_char b'_' "-" s ≡ replace_char b'_' "-" t
    → s ≡ t
unfolding replace_char has_separator
replace_char-injective [] [] h k e = refl
replace_char-injective [] (d ∷ t) h k e = cc
replace_char-injective (c ∷ s) [] h k e = cc
replace_char-injective (c ∷ s) (d ∷ t) h k e =
    let heads : (if code c == b'_' then "-" else c) ≡ (if code d == b'_' then "-" else d) = cc in
    let tails : s ≡ t = replace_char-injective s t (ground arith) (ground arith) cc in
    let first : c ≡ d = char_from_code c d (ground arith) (ground arith) heads in cc

-- The suffix of another environment than production is not empty, and gives its name back.
other : (s : String) → str_eq s "production" ≡ false → suffix_of s ≡ "-" ∷ replace_char b'_' "-" s
other s h = rw h refl

production : (s : String) → str_eq s "production" ≡ true → suffix_of s ≡ ""
production s h = rw h refl

suffix_of-injective :
    (s t : String)
    → has_separator s ≡ false
    → has_separator t ≡ false
    → suffix_of s ≡ suffix_of t
    → s ≡ t
suffix_of-injective s t h k e = elim (Bool-cases (str_eq s "production")) [
  | inl p ↦ elim (Bool-cases (str_eq t "production")) [
    | inl q ↦ (eq_iff s "production").0 p ∙ sym ((eq_iff t "production").0 q)
    | inr q ↦
        let impossible : "" ≡ "-" ∷ replace_char b'_' "-" t =
          sym (production s p) ∙ e ∙ other t q in
        cc
  ]
  | inr p ↦ elim (Bool-cases (str_eq t "production")) [
    | inl q ↦
        let impossible : "" ≡ "-" ∷ replace_char b'_' "-" s =
          sym (production t q) ∙ sym e ∙ other s p in
        cc
    | inr q ↦
        let same : "-" ∷ replace_char b'_' "-" s ≡ "-" ∷ replace_char b'_' "-" t =
          sym (other s p) ∙ e ∙ other t q in
        replace_char-injective s t h k cc
  ]
]

unseparated :
    (name : String) → has_separator name ≡ false → has_separator (env_name_of name) ≡ false
unfolding has_separator
unseparated name h = elim (Bool-cases (str_eq name "prod" || str_eq name "production")) [
  | inl same ↦ rw same refl
  | inr differ ↦ rw differ h
]

-- The variables of an environment, all of them from its name.
accepted_from :
    (name : String) (o : Overrides)
    → (require (not (str_eq name ""))
        >> require (not (has_separator name))
        >> some (overrides_of (env_name_of name)))
      ≡ some o
    → (o ≡ overrides_of o.deploy_env) × (has_separator o.deploy_env ≡ false)
accepted_from name o e =
    let (passed, made) =
      seq-some (require (not (str_eq name "")) >> require (not (has_separator name)))
        (some (overrides_of (env_name_of name))) o e in
    let (_, tested) =
      require-some (not (str_eq name "")) (require (not (has_separator name))) tt passed in
    let same : overrides_of (env_name_of name) ≡ o = some-injective _ _ made in
    let named : env_name_of name ≡ o.deploy_env = ap (λ x. x.deploy_env) same in
    let plain : has_separator name ≡ false =
      ground (arith, require-true (not (has_separator name)) tested) in
    (
      sym same ∙ ap overrides_of named,
      subst (λ x. has_separator x ≡ false) named (unseparated name plain),
    )

accepted-overrides :
    (deploy_env : String) (o : Overrides)
    → deploy_env_overrides deploy_env ≡ some o
    → (o ≡ overrides_of o.deploy_env) × (has_separator o.deploy_env ≡ false)
unfolding deploy_env_overrides
accepted-overrides deploy_env o e = accepted_from (lower (strip deploy_env)) o e

-- If two environments are accepted and have the same suffix, or the same suffix of their domains, then
-- their variables are the same, the name of the environment among them.
pub deploy_env_overrides-Apart :
    (s t : String) (o p : Overrides)
    → deploy_env_overrides s ≡ some o
    → deploy_env_overrides t ≡ some p
    → (o.env_suffix ≡ p.env_suffix) ⊎ (o.env_domain_suffix ≡ p.env_domain_suffix)
    → o ≡ p
deploy_env_overrides-Apart s t o p h k e =
    let (of_o, o_plain) = accepted-overrides s o h in
    let (of_p, p_plain) = accepted-overrides t p k in
    let suffixes : suffix_of o.deploy_env ≡ suffix_of p.deploy_env = elim e [
      | inl same ↦ sym (ap (λ x. x.env_suffix) of_o) ∙ same ∙ ap (λ x. x.env_suffix) of_p
      | inr same ↦
          sym (ap (λ x. x.env_domain_suffix) of_o) ∙ same ∙ ap (λ x. x.env_domain_suffix) of_p
    ] in
    of_o
    ∙ ap overrides_of (suffix_of-injective o.deploy_env p.deploy_env o_plain p_plain suffixes)
    ∙ sym of_p
