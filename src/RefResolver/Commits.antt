-- ===== src/RefResolver/Commits.antt =====
-- tools/resolve_deploy_ref.py: which commit a ref stands for.
use mathlib.Core.Option
use infra.Prelude.{
  String, ◌<>◌, [], ◌∷◌, ◌⊎◌, sym, subst, arith, false, ◌≡◌, refl, ap, ◌∙◌, inl, inr, Option, none,
  some, List, str_eq, eq_iff, Bool-cases, Option-cases,
}
use infra.Prelude.Text.{strip, lower}
use infra.Prelude.Errors.{◌>>=◌}
use infra.RefResolver.{
  tagged, classify_ref, resolve_remote_sha, resolve_to_sha, resolve_image_ref, ResolvedRef, found,
  Row, peeled_ref, first_some, named, ls_remote_rows, remote_ref_for, image_of,
}
use infra.RefResolver.Named.{IsFirst, NoneNamed, Found, named-Found, found_first}

map-image_of :
    (form : String) (o : Option String)
    → Option.map (λ (r : ResolvedRef). r.sha) (o >>= λ sha. some (image_of form sha)) ≡ o
map-image_of form none = refl
map-image_of form (some sha) = refl

map-tagged :
    (form tag : String) (o : Option String)
    → Option.map (λ (r : ResolvedRef). r.sha) (o >>= λ sha. some (tagged form tag sha)) ≡ o
map-tagged form tag none = refl
map-tagged form tag (some sha) = refl

module _ (ls_remote : String → List String → Option String) (repo ref : String) where
  SameCommit : Type 0
  SameCommit =
      Option.map (λ (r : ResolvedRef). r.sha) (resolve_image_ref ls_remote repo ref)
      ≡ resolve_to_sha ls_remote repo ref

  of_no_form : classify_ref ref ≡ none → SameCommit
  unfolding SameCommit resolve_image_ref resolve_to_sha
  of_no_form bad = rw bad refl

  of_tag : classify_ref ref ≡ some "tag" → SameCommit
  unfolding SameCommit resolve_image_ref resolve_to_sha
  of_tag is =
      rw is (
        map-tagged "tag" (strip ref)
          (resolve_remote_sha ls_remote repo "tag" (strip ref) >>= found))

  of_other : (form : String) → classify_ref ref ≡ some form → str_eq form "tag" ≡ false → SameCommit
  unfolding SameCommit resolve_image_ref
  of_other form is other = rw (is, other) (map-image_of form (resolve_to_sha ls_remote repo ref))

  -- The commit of the image that a ref resolves to is the commit that the ref resolves to.
  image-SameCommit : SameCommit
  image-SameCommit = elim (Option-cases (classify_ref ref)) [
    | inl bad ↦ of_no_form bad
    | inr (form, is) ↦ elim (Bool-cases (str_eq form "tag")) [
      | inl tag ↦ of_tag (is ∙ ap some ((eq_iff form "tag").0 tag))
      | inr other ↦ of_other form is other
    ]
  ]

  abbrev pub main_ref : String
  main_ref = "refs/heads/main"

  abbrev pub tag_ref : String
  tag_ref = "refs/tags/" <> strip ref

  -- What git prints for the branch, and for the tag with the commit it stands for.
  abbrev pub BranchRows : Option (List Row) → Type 0
  BranchRows o = ls_remote_rows ls_remote repo (main_ref ∷ []) ≡ o

  abbrev pub TagRows : Option (List Row) → Type 0
  TagRows o = ls_remote_rows ls_remote repo (tag_ref ∷ peeled_ref tag_ref ∷ []) ≡ o

  -- The commit of the tag: that of its peel if git prints one, else its own.
  abbrev pub IsTagged : List Row → String → Type 0
  IsTagged rows sha =
      IsFirst (peeled_ref tag_ref) rows sha
      ⊎ (NoneNamed (peeled_ref tag_ref) rows × IsFirst tag_ref rows sha)

  -- What the ref stands for.
  abbrev pub Designates : ResolvedRef → Type 0
  Designates r =
      ((classify_ref ref ≡ some "sha") × (r ≡ image_of "sha" (lower (strip ref))))
      ⊎ (((classify_ref ref ≡ some "branch")
            × ((rows : List Row) × (BranchRows (some rows)
                  × (IsFirst main_ref rows r.sha × (r ≡ image_of "branch" r.sha)))))
          ⊎ ((classify_ref ref ≡ some "tag")
              × ((rows : List Row) × (TagRows (some rows)
                    × (IsTagged rows r.sha × (r ≡ tagged "tag" (strip ref) r.sha))))))

  -- Why it stands for nothing.
  abbrev pub Dangles : Type 0
  Dangles =
      (classify_ref ref ≡ none)
      ⊎ (((classify_ref ref ≡ some "branch")
            × (BranchRows none
                ⊎ ((rows : List Row) × (BranchRows (some rows) × NoneNamed main_ref rows))))
          ⊎ ((classify_ref ref ≡ some "tag")
              × (TagRows none
                  ⊎ ((rows : List Row) × (TagRows (some rows)
                        × (NoneNamed (peeled_ref tag_ref) rows × NoneNamed tag_ref rows))))))

  abbrev pub Resolves : Option ResolvedRef → Type 0
  Resolves none = Dangles
  Resolves (some r) = Designates r

  of_branch_named :
      (rows : List Row) (sha : Option String)
      → classify_ref ref ≡ some "branch"
      → BranchRows (some rows)
      → Found main_ref rows sha
      → Resolves (found sha >>= λ c. some (image_of "branch" c))
  of_branch_named rows none is printed f = inr (inl (is, inr (rows, (printed, f))))
  of_branch_named rows (some sha) is printed f =
      rw (found_first ls_remote repo (main_ref ∷ []) rows main_ref sha printed f)
        (inr (inl (is, (rows, (printed, (f, refl))))))

  branch-Resolves :
      (o : Option (List Row))
      → classify_ref ref ≡ some "branch"
      → BranchRows o
      → Resolves
          ((o >>= λ rows. some (named main_ref rows)) >>= found >>= λ c. some (image_of "branch" c))
  branch-Resolves none is printed = inr (inl (is, inl printed))
  branch-Resolves (some rows) is printed =
      of_branch_named rows (named main_ref rows) is printed (named-Found main_ref rows)

  of_tag_named :
      (rows : List Row) (peel own : Option String)
      → classify_ref ref ≡ some "tag"
      → TagRows (some rows)
      → Found (peeled_ref tag_ref) rows peel
      → Found tag_ref rows own
      → Resolves (found (first_some peel own) >>= λ c. some (tagged "tag" (strip ref) c))
  of_tag_named rows none none is printed f g = inr (inr (is, inr (rows, (printed, (f, g)))))
  of_tag_named rows none (some sha) is printed f g =
      rw (found_first ls_remote repo (tag_ref ∷ peeled_ref tag_ref ∷ []) rows tag_ref sha printed g)
        (inr (inr (is, (rows, (printed, (inr (f, g), refl))))))
  of_tag_named rows (some sha) own is printed f g =
      rw
        (found_first ls_remote repo (tag_ref ∷ peeled_ref tag_ref ∷ []) rows (peeled_ref tag_ref)
          sha printed f)
        (inr (inr (is, (rows, (printed, (inl f, refl))))))

  tag-Resolves :
      (o : Option (List Row))
      → classify_ref ref ≡ some "tag"
      → TagRows o
      → Resolves (
          (o >>= λ rows. some (first_some (named (peeled_ref tag_ref) rows) (named tag_ref rows)))
          >>= found
          >>= λ c. some (tagged "tag" (strip ref) c))
  tag-Resolves none is printed = inr (inr (is, inl printed))
  tag-Resolves (some rows) is printed =
      of_tag_named rows (named (peeled_ref tag_ref) rows) (named tag_ref rows) is printed
        (named-Found (peeled_ref tag_ref) rows) (named-Found tag_ref rows)

  when_branch :
      classify_ref ref ≡ some "branch"
      → resolve_image_ref ls_remote repo ref ≡ (
          (ls_remote_rows ls_remote repo (main_ref ∷ []) >>= λ rows. some (named main_ref rows))
          >>= found
          >>= λ c. some (image_of "branch" c))
  unfolding resolve_image_ref resolve_to_sha resolve_remote_sha remote_ref_for
  when_branch is = rw is refl

  when_tag :
      classify_ref ref ≡ some "tag"
      → resolve_image_ref ls_remote repo ref ≡ (
          (ls_remote_rows ls_remote repo (tag_ref ∷ peeled_ref tag_ref ∷ []) >>= λ rows.
          some (first_some (named (peeled_ref tag_ref) rows) (named tag_ref rows)))
          >>= found
          >>= λ c. some (tagged "tag" (strip ref) c))
  unfolding resolve_image_ref resolve_remote_sha remote_ref_for
  when_tag is = rw is refl

  when_sha :
      classify_ref ref ≡ some "sha"
      → resolve_image_ref ls_remote repo ref ≡ some (image_of "sha" (lower (strip ref)))
  unfolding resolve_image_ref resolve_to_sha
  when_sha is = rw is refl

  when_none : classify_ref ref ≡ none → resolve_image_ref ls_remote repo ref ≡ none
  unfolding resolve_image_ref
  when_none is = rw is refl

  classify-cases :
      (classify_ref ref ≡ none)
      ⊎ ((classify_ref ref ≡ some "sha")
          ⊎ ((classify_ref ref ≡ some "branch") ⊎ (classify_ref ref ≡ some "tag")))
  unfolding classify_ref
  classify-cases = ground arith

  resolve_image_ref-Resolves : Resolves (resolve_image_ref ls_remote repo ref)
  resolve_image_ref-Resolves = elim classify-cases [
    | inl bad ↦ subst Resolves (sym (when_none bad)) (inl bad)
    | inr (inl is) ↦ subst Resolves (sym (when_sha is)) (inl (is, refl))
    | inr (inr (inl is)) ↦ subst Resolves (sym (when_branch is)) (branch-Resolves _ is refl)
    | inr (inr (inr is)) ↦ subst Resolves (sym (when_tag is)) (tag-Resolves _ is refl)
  ]

  -- A ref resolves exactly as git prints: a sha to itself in lower case, main to the first row of the
  -- branch, a tag to the first row of its peel, or of the tag itself if there is no peel. The image of a
  -- tag has its name, another one the first seven characters of the commit. It fails only for a ref of
  -- no known form, when git fails, and when no row has a name that was asked for. The commit alone
  -- resolves in the same way.
  pub resolve_image_ref-Designates :
      Resolves (resolve_image_ref ls_remote repo ref)
      × (Option.map (λ (r : ResolvedRef). r.sha) (resolve_image_ref ls_remote repo ref)
          ≡ resolve_to_sha ls_remote repo ref)
  unfolding SameCommit
  resolve_image_ref-Designates = (resolve_image_ref-Resolves, image-SameCommit)
