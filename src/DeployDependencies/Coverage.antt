-- ===== src/DeployDependencies/Coverage.antt =====
-- A clean coverage audit means that the fan-out reaches every service that bakes a tree in.
use Prim.Native.String.{String}
use mathlib.Core.Option
use infra.Prelude.{
  Bool, true, false, ◌&&◌, ◌||◌, List, [], ◌∷◌, ◌++◌, ◌≡◌, refl, sym, ◌∙◌, ap, arith, str_eq,
  eq_iff, eq_refl, Bool-cases, inl, inr,
}
use infra.Prelude.Dict.{Dict, lookup, contains}
use infra.Prelude.Text.Order.{sorted, contains-sorted}
use infra.DeployDependencies.{Manifest, matches_any, match_changed_services}
use infra.DeployDependencies.Fanout.{is_declared, match_changed_services-affects}
use infra.DeployDependencies.Dockerfiles.{
  dockerfile_baked_shared_trees, probe_of, undeclared, all_undeclared, fanout_coverage_violations,
}

-- One of the services is `k`, and its Dockerfile bakes the tree in.
abbrev pub bakes : Dict String → String → String → Bool
bakes [] k tree = false
bakes ((service_key, text) ∷ rest) k tree =
    (str_eq service_key k && contains tree (dockerfile_baked_shared_trees text))
    || bakes rest k tree

declared_globs :
    (manifest : Manifest) (k f : String)
    → matches_any (Option.get_or (lookup k manifest) []) f ≡ true
    → is_declared manifest k f ≡ true
unfolding lookup
declared_globs [] k f h = h
declared_globs ((service_key, globs) ∷ manifest) k f h = ground (arith, declared_globs manifest k f)

undeclared-nil :
    (k : String) (globs trees : List String) (tree : String)
    → undeclared k globs trees ≡ []
    → contains tree trees ≡ true
    → matches_any globs (probe_of tree) ≡ true
unfolding undeclared
undeclared-nil k globs [] tree none_left there = ground arith
undeclared-nil k globs (t ∷ trees) tree none_left there = elim (Bool-cases (str_eq t tree)) [
  | inl same ↦ ground (arith, ap (λ x. matches_any globs (probe_of x)) ((eq_iff t tree).0 same))
  | inr differ ↦ ground (arith, undeclared-nil k globs trees tree)
]

append-nil_both : (l m : List String) → (l ++ m) ≡ [] → (l ≡ []) × (m ≡ [])
append-nil_both [] m e = (refl, e)
append-nil_both (s ∷ l) m e = ground arith

all_undeclared-nil :
    (dockerfiles : Dict String) (manifest : Manifest) (k tree : String)
    → all_undeclared dockerfiles manifest ≡ []
    → bakes dockerfiles k tree ≡ true
    → matches_any (Option.get_or (lookup k manifest) []) (probe_of tree) ≡ true
unfolding all_undeclared
all_undeclared-nil [] manifest k tree none_left h = ground arith
all_undeclared-nil ((service_key, text) ∷ rest) manifest k tree none_left h =
    let (first, others) =
      append-nil_both (undeclared service_key _ _) (all_undeclared rest manifest) none_left in
    elim (Bool-cases (str_eq service_key k && contains tree (dockerfile_baked_shared_trees text))) [
      | inl here ↦
          ap (λ x. matches_any (Option.get_or (lookup x manifest) []) (probe_of tree))
            (sym ((eq_iff service_key k).0 (ground arith)))
          ∙ undeclared-nil service_key _ (dockerfile_baked_shared_trees text) tree first
              (ground arith)
      | inr later ↦ all_undeclared-nil rest manifest k tree others (ground arith)
    ]

sorted-nil : (l : List String) → sorted l ≡ [] → l ≡ []
sorted-nil [] e = refl
sorted-nil (s ∷ l) e = ground (arith, eq_refl s, contains-sorted s (s ∷ l), ap (contains s) e)

-- If the coverage audit finds no violation, a change in a shared tree that the Dockerfile of a
-- service bakes in, at the path that the audit tries, fans out to that service.
pub fanout_coverage_violations-match_changed_services :
    (service_dockerfiles : Dict String) (manifest : Manifest) (k tree : String)
    → fanout_coverage_violations service_dockerfiles manifest ≡ []
    → bakes service_dockerfiles k tree ≡ true
    → contains k (match_changed_services (probe_of tree ∷ []) manifest) ≡ true
unfolding fanout_coverage_violations
fanout_coverage_violations-match_changed_services dockerfiles manifest k tree clean baked =
    match_changed_services-affects (probe_of tree ∷ []) manifest k
    ∙ ground (
      arith,
      declared_globs manifest k (probe_of tree) (
          all_undeclared-nil dockerfiles manifest k tree
            (sorted-nil (all_undeclared dockerfiles manifest) clean) baked),
    )
