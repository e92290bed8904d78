-- ===== src/ProbeRunner/Roots.antt =====
-- Cascade suppression never hides the whole of a failure: what it hides has a root that is paged.
use infra.Prelude.{
  ℕ, zero, suc, ◌≤◌, ◌<◌, String, ◌≡◌, ◌∙◌, ap, ◌≢◌, Bool, true, false, not, ◌&&◌, ◌⊎◌, inl, inr,
  none, some, List, [], ◌∷◌, arith, str_eq, eq_iff, if◌then◌else◌, length, keep_if, Bool-cases,
}
use infra.Prelude.Dict.{Dict, contains}
use infra.ProbeRunner.{ProbeResult}
use infra.ProbeRunner.Cascade.{
  names_of, next_of, cascades_loop, rounds, cascades_to_failing_root, root_loop,
  resolve_failing_root, group_failures, failed_names, group_deps, is_cascaded, cascaded_names,
  uncascaded,
}

-- How many of `l` are not in `seen`.
abbrev unseen : List String → List String → ℕ
unseen seen [] = 0
unseen seen (x ∷ l) = if contains x seen then unseen seen l else suc (unseen seen l)

unseen-le-length : (seen l : List String) → unseen seen l ≤ length l
unseen-le-length seen [] = omega arith
unseen-le-length seen (x ∷ l) = ground (arith, unseen-le-length seen l)

unseen-cons-le : (c : String) (seen l : List String) → unseen (c ∷ seen) l ≤ unseen seen l
unseen-cons-le c seen [] = omega arith
unseen-cons-le c seen (x ∷ l) = ground (arith, unseen-cons-le c seen l)

-- To see a member of `l` for the first time leaves fewer to see.
unseen-cons-lt :
    (c : String) (seen l : List String)
    → contains c l ≡ true
    → contains c seen ≡ false
    → unseen (c ∷ seen) l < unseen seen l
unseen-cons-lt c seen [] there new = cc
unseen-cons-lt c seen (x ∷ l) there new =
    ground (arith, unseen-cons-lt c seen l, unseen-cons-le c seen l, eq_iff x c, eq_iff c x)

module _ (deps : Dict String) (failed : List String) where
  -- Enough fuel: the loop of `_cascades_to_failing_root` ends.
  cascades_loop-ne-none :
      (fuel : ℕ) (cur : String) (seen : List String)
      → unseen seen failed < fuel
      → cascades_loop deps failed fuel cur seen ≢ none
  unfolding cascades_loop
  cascades_loop-ne-none zero cur seen h = elim h [ ]
  cascades_loop-ne-none (suc fuel) cur seen h = ground (
    arith,
    cascades_loop-ne-none fuel (next_of deps failed cur) (cur ∷ seen),
    unseen-cons-lt cur seen failed,
  )

  -- The fuel that the model gives is enough for every name.
  pub cascades_to_failing_root-ne-none :
      (name : String) → cascades_to_failing_root deps failed name ≢ none
  unfolding cascades_to_failing_root
  cascades_to_failing_root-ne-none name = ground (
    arith,
    cascades_loop-ne-none (rounds deps failed) (next_of deps failed name) (name ∷ []),
    unseen-le-length (name ∷ []) failed,
  )

  -- A root: a failed probe with no dependency of its own that failed.
  abbrev pub IsRoot : String → Type 0
  IsRoot r = (contains r failed ≡ true) × (next_of deps failed r ≡ "")

  IsRoot-of_loop :
      (fuel : ℕ) (root cur : String) (seen : List String)
      → str_eq cur "" ≡ false
      → cascades_loop deps failed fuel cur seen ≡ some true
      → (r : String) × (root_loop deps failed (suc fuel) root cur seen ≡ some r) × IsRoot r
  unfolding cascades_loop root_loop
  IsRoot-of_loop zero root cur seen full h = cc
  IsRoot-of_loop (suc fuel) root cur seen full h =
      elim (Bool-cases (str_eq (next_of deps failed cur) "")) [
        | inl last ↦ (cur, ground arith, (ground arith, (eq_iff _ _).0 last))
        | inr more ↦
            let found =
              IsRoot-of_loop fuel cur (next_of deps failed cur) (cur ∷ seen) more (ground arith) in
            (found.0, ground arith, found.2)
      ]

  -- A symptom that is hidden has a failed root at the end of its dependencies, and
  -- `_resolve_failing_root` finds it.
  pub IsRoot-of_cascaded :
      (name : String)
      → cascades_to_failing_root deps failed name ≡ some true
      → (r : String) × (resolve_failing_root deps failed name ≡ some r) × IsRoot r
  unfolding cascades_to_failing_root resolve_failing_root
  IsRoot-of_cascaded name h =
      IsRoot-of_loop (rounds deps failed) name (next_of deps failed name) (name ∷ []) (ground arith)
        (ground arith)

  root-not_cascaded : (r : String) → IsRoot r → cascades_to_failing_root deps failed r ≡ some false
  unfolding cascades_to_failing_root
  root-not_cascaded r root = ground (arith, eq_iff (next_of deps failed r) "")

pub contains-keep_if :
    (p : String → Bool) (k : String) (l : List ProbeResult)
    → contains k (names_of (keep_if (λ r. p r.spec.name) l)) ≡ (p k && contains k (names_of l))
contains-keep_if p k [] = ground arith
contains-keep_if p k (r ∷ l) = elim (Bool-cases (str_eq r.spec.name k)) [
  | inl same ↦ ground (arith, contains-keep_if p k l, ap p ((eq_iff r.spec.name k).0 same))
  | inr differ ↦ ground (arith, contains-keep_if p k l)
]

module _ (results : List ProbeResult) where
  abbrev pub paged : List String
  paged = names_of (uncascaded results (group_failures results))

  contains-paged :
      (k : String)
      → contains k paged ≡ (not (is_cascaded results k) && contains k (failed_names results))
  unfolding uncascaded
  contains-paged k =
      contains-keep_if (λ name. not (contains name (cascaded_names results))) k
        (group_failures results)
      ∙ ground (arith, contains-keep_if (is_cascaded results) k (group_failures results))

  -- Every failed probe of a group is paged itself, or its dependencies lead, through failed probes,
  -- to a root that `_resolve_failing_root` names, that failed and that is paged. Cycles included,
  -- no failure is silent.
  pub failure_is_paged :
      (name : String)
      → contains name (failed_names results) ≡ true
      → (contains name paged ≡ true)
        ⊎ ((root : String) × (resolve_failing_root (group_deps results) (failed_names results) name
              ≡ some root)
            × (contains root paged ≡ true))
  failure_is_paged name failed = elim (Bool-cases (is_cascaded results name)) [
    | inr shown ↦ inl (rw contains-paged (ground arith))
    | inl hidden ↦
        let (root, found, is_root) =
          IsRoot-of_cascaded (group_deps results) (failed_names results) name (ground arith) in
        inr (
          root,
          found,
          rw contains-paged (
              ground (
                arith,
                is_root.0,
                root-not_cascaded (group_deps results) (failed_names results) root is_root,
              )),
        )
  ]
