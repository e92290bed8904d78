-- ===== src/Reconcile/Gates.antt =====
-- tools/reconcile_iac_inputs.py: what must hold before a command runs.
use infra.Prelude.{
  String, Bool, true, false, List, [], ◌∷◌, ◌==◌, ◌≡◌, refl, sym, subst, ◌⊎◌, inl, inr, All, str_eq,
  eq_iff, if◌then◌else◌, Bool-cases,
}
use infra.Prelude.Effects.{
  Every, Every-bind, Every-value, Every-check, Every-cause, Every-pure, Every-if,
}
use infra.Prelude.Effects.Returns.{
  Returns, Returns-check, Returns-bind, Returns-pure, Returns-ok, Returns-any,
}
use infra.Prelude.Text.{strip}
use infra.Reconcile.{DeployCommand}
use infra.Reconcile.Main.{
  Repository, Args, assert_after_on_main, changed_files_from_git, of_type, wanted_type,
  commands_to_apply, run_deploy_commands, guarded, files_of, main,
}
use infra.Reconcile.Ready.{IsOf, build_plan-Planned, build_deploy_commands-IsOf}

module _ (repo : Repository) (args : Args) where
  -- What a command that runs comes after.
  pub record Gated (command : DeployCommand) : Type 0 where
    pub applies : args.dry_run ≡ false
    pub known : (repo.rev_parse args.release.iac_ref).success ≡ true
    pub on_main : repo.is_ancestor (strip (repo.rev_parse args.release.iac_ref).stdout) == 0 ≡ true
    pub wanted : command.deploy_type ≡ (if args.promote_prod then "prod" else "staging")
    pub of : IsOf repo.attrs args.release command

  abbrev pub OnMain : Type 0
  OnMain =
      ((repo.rev_parse args.release.iac_ref).success ≡ true)
      × (repo.is_ancestor (strip (repo.rev_parse args.release.iac_ref).stdout) == 0 ≡ true)

  of_type-Gated :
      (commands : List DeployCommand)
      → args.dry_run ≡ false
      → OnMain
      → All (IsOf repo.attrs args.release) commands
      → All Gated (of_type (wanted_type args.promote_prod) commands)
  unfolding of_type wanted_type
  of_type-Gated [] live main h = tt
  of_type-Gated (command ∷ rest) live (known, on_main) (is, h) =
      elim (Bool-cases (str_eq command.deploy_type (wanted_type args.promote_prod))) [
        | inl same ↦ rw same (
          record {
            applies = live;
            known = known;
            on_main = on_main;
            wanted = (eq_iff command.deploy_type (wanted_type args.promote_prod)).0 same;
            of = is;
          },
          of_type-Gated rest live (known, on_main) h,
        )
        | inr other ↦ rw other (of_type-Gated rest live (known, on_main) h)
      ]

  run_deploy_commands-Every :
      (commands : List DeployCommand)
      → All Gated commands
      → Every Gated (run_deploy_commands repo commands)
  unfolding run_deploy_commands
  run_deploy_commands-Every [] h = Every-pure Gated _
  run_deploy_commands-Every (command ∷ rest) (g, h) =
      Every-cause Gated command _ _ g (λ completed _.
        Every-if Gated completed.success _ _
          (λ _. Every-bind Gated _ _ (run_deploy_commands-Every rest h) (λ _ _. Every-pure Gated _))
          (λ _. Every-pure Gated _))

  files_of-Every : (files : List String) → Every Gated (files_of repo args files)
  unfolding changed_files_from_git
  files_of-Every [] = Every-check Gated _ _ _ (λ _. Every-pure Gated _)
  files_of-Every (f ∷ files) = Every-pure Gated _

  guarded-Every : (dry_run : Bool) → Every Gated (guarded dry_run repo args)
  unfolding guarded assert_after_on_main
  guarded-Every true = files_of-Every args.changed_file
  guarded-Every false =
      Every-bind Gated _ _
        (Every-check Gated _ _ _ (λ _. Every-check Gated _ _ _ (λ _. Every-pure Gated _)))
        (λ _ _. files_of-Every args.changed_file)

  -- A dry run, or a release on main.
  abbrev pub IsOpen : Bool → Type 0
  IsOpen dry_run = (dry_run ≡ true) ⊎ ((dry_run ≡ false) × OnMain)

  assert_after_on_main-Returns :
      Returns (λ _. OnMain) (assert_after_on_main repo args.release.iac_ref)
  unfolding assert_after_on_main
  assert_after_on_main-Returns =
      Returns-check _ _ _ _ (λ known.
        Returns-check _ _ _ _ (λ on_main. Returns-pure DeployCommand _ _ (known, on_main)))

  guarded-Returns : (dry_run : Bool) → Returns (λ _. IsOpen dry_run) (guarded dry_run repo args)
  unfolding guarded
  guarded-Returns true = Returns-any _ _ (λ _. inl refl)
  guarded-Returns false =
      Returns-bind (λ _. OnMain) _ _ _ assert_after_on_main-Returns
        (λ _ on_main. Returns-any _ _ (λ _. inr (refl, on_main)))

  commands_to_apply-Gated :
      (commands : List DeployCommand)
      → IsOpen args.dry_run
      → All (IsOf repo.attrs args.release) commands
      → All Gated (commands_to_apply commands args.dry_run args.promote_prod)
  unfolding commands_to_apply
  commands_to_apply-Gated commands (inl dry) h =
      subst (λ b. All Gated (if b then [] else of_type (wanted_type args.promote_prod) commands))
        (sym dry) tt
  commands_to_apply-Gated commands (inr (live, on_main)) h =
      subst (λ b. All Gated (if b then [] else of_type (wanted_type args.promote_prod) commands))
        (sym live) (of_type-Gated commands live on_main h)

  -- Before a command runs, the run is no dry run, and the release is on main; the command is of the type
  -- that was asked for, prod only if its promotion was; and its services are registered, and have that
  -- environment.
  pub main-Gated : Every Gated (main repo args)
  unfolding main
  main-Gated = Every-bind Gated _ _ (guarded-Every args.dry_run) (λ files returned.
      Every-value Gated _ _ (λ plan built.
        Every-bind Gated _ _
          (run_deploy_commands-Every _ (
            commands_to_apply-Gated _
              (Returns-ok _ (guarded args.dry_run repo args) files (guarded-Returns args.dry_run)
                returned)
              (build_deploy_commands-IsOf repo.attrs plan args.release
                (build_plan-Planned repo.attrs repo.manifest files plan built))))
          (λ _ _. Every-pure Gated _)))
