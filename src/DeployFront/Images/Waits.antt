-- ===== src/DeployFront/Images/Waits.antt =====
-- tools/deploy_v2.py: the wait for the images ends, and it ends well only if all images are there.
use infra.Prelude.{
  ℕ, zero, suc, ◌+◌, ◌*◌, ◌<◌, ◌≤◌, String, Bool, true, false, ◌&&◌, Option, some, List, [], ◌∷◌,
  ◌==◌, leb, ltb, ◌≡◌, refl, sym, ap, ◌∙◌, ◌⊎◌, inl, inr, arith, Bool-cases, All, subst,
}
use infra.Prelude.Effects.{
  value_error, runtime_error, http_error, timeout_error, Outcome, ok, raised,
}
use infra.DeployFront.Images.{
  Round, add_image, look_for, Verdict, go_on, stop, judge_round, is_empty, Artifacts, round_of,
  next_time, wait_loop,
}

complete : Outcome Round → Bool
complete (ok r) = is_empty r.missing && is_empty r.errors
complete (raised _) = false

add_image-there :
    (image : String) (answer : Outcome Bool) (others : Outcome Round) (r : Round)
    → add_image image answer others ≡ ok r
    → (is_empty r.missing && is_empty r.errors) ≡ true
    → (answer ≡ ok true) × (others ≡ ok r)
unfolding complete
add_image-there image (raised value_error) o r e h = ground arith
add_image-there image (raised timeout_error) o r e h = ground arith
add_image-there image (raised runtime_error) (ok q) r e h = ground (arith, ap complete e)
add_image-there image (raised http_error) (ok q) r e h = ground (arith, ap complete e)
add_image-there image (raised runtime_error) (raised f) r e h = ground arith
add_image-there image (raised http_error) (raised f) r e h = ground arith
add_image-there image (ok true) (ok q) r e h = (refl, e)
add_image-there image (ok false) (ok q) r e h = ground (arith, ap complete e)
add_image-there image (ok true) (raised f) r e h = ground arith
add_image-there image (ok false) (raised f) r e h = ground arith

module _ (exists_image : String → Outcome Bool) where
  AllThere : List String → Type 0
  AllThere images = All (λ image. exists_image image ≡ ok true) images

  look_for-there :
      (images : List String) (r : Round)
      → look_for exists_image images ≡ ok r
      → (is_empty r.missing && is_empty r.errors) ≡ true
      → AllThere images
  unfolding look_for AllThere
  look_for-there [] r e h = tt
  look_for-there (image ∷ rest) r e h =
      let (there, others) =
        add_image-there image (exists_image image) (look_for exists_image rest) r e h in
      (there, look_for-there rest r others h)

enough :
    (deadline interval : ℕ)
    → (ltb 0 deadline && interval == 0) ≡ false
    → deadline ≤ deadline * interval
enough deadline zero h = ground arith
enough deadline (suc interval) h = omega arith

module _ (registry : Artifacts) (images : List String) (interval deadline : ℕ) where
  -- What an end of the loop says of the registry.
  pub Explained : Outcome (Unit {0}) → Type 0
  Explained (ok _) = (round : ℕ) × AllThere (registry.exists_image round) images
  Explained (raised _) = Unit

  outcome_of : Verdict → Outcome (Unit {0})
  outcome_of go_on = raised timeout_error
  outcome_of (stop o) = o

  stop-Explained : (o o' : Outcome (Unit {0})) → stop o ≡ stop o' → Explained o → Explained o'
  unfolding outcome_of
  stop-Explained o o' e h = subst Explained (ap outcome_of e) h

  judge_round-Explained :
      (answer : Outcome Round) (late : Bool) (o : Outcome (Unit {0}))
      → judge_round answer late ≡ stop o
      → ((r : Round) → answer ≡ ok r → complete (ok r) ≡ true → Explained (ok tt))
      → Explained o
  unfolding complete Explained
  judge_round-Explained (raised failure) late o e k = stop-Explained (raised failure) o e tt
  judge_round-Explained (ok r) late o e k = elim (Bool-cases (complete (ok r))) [
    | inl all ↦ stop-Explained (ok tt) o (sym (rw all refl) ∙ e) (k r refl all)
    | inr some_missing ↦ elim (Bool-cases late) [
      | inl is_late ↦
          stop-Explained (raised runtime_error) o (sym (rw (some_missing, is_late) refl) ∙ e) tt
      | inr early ↦ ground (arith, e, some_missing, early)
    ]
  ]

  round_of-Explained :
      (round now : ℕ) (o : Outcome (Unit {0}))
      → round_of registry images interval deadline round now ≡ stop o
      → Explained o
  unfolding complete Explained
  round_of-Explained round now o e =
      judge_round-Explained (look_for (registry.exists_image round) images)
        (leb deadline (now + registry.delay round)) o e
        (λ r found all. (round, look_for-there (registry.exists_image round) images r found all))

  judge_round-early :
      (answer : Outcome Round) (late : Bool) → judge_round answer late ≡ go_on → late ≡ false
  judge_round-early (raised failure) late e = ground (arith, e)
  judge_round-early (ok r) late e = ground (arith, e)

  -- A round that goes on is over before the deadline.
  go_on-early :
      (round now : ℕ)
      → round_of registry images interval deadline round now ≡ go_on
      → now + registry.delay round < deadline
  go_on-early round now e =
      let early =
        judge_round-early (look_for (registry.exists_image round) images)
          (leb deadline (now + registry.delay round)) e in
      ground (arith, early)

  Verdict-cases : (v : Verdict) → (v ≡ go_on) ⊎ ((o : Outcome (Unit {0})) × (v ≡ stop o))
  Verdict-cases go_on = inl refl
  Verdict-cases (stop o) = inr (o, refl)

  Ends : Option (Outcome (Unit {0})) → Type 0
  Ends run = (o : Outcome (Unit {0})) × ((run ≡ some o) × Explained o)

  wait_loop-stop :
      (fuel round now : ℕ) (o : Outcome (Unit {0}))
      → round_of registry images interval deadline round now ≡ stop o
      → wait_loop registry images interval deadline (suc fuel) round now ≡ some o
  unfolding wait_loop
  wait_loop-stop fuel round now o e = rw e refl

  wait_loop-go_on :
      (fuel round now : ℕ)
      → round_of registry images interval deadline round now ≡ go_on
      → wait_loop registry images interval deadline (suc fuel) round now
        ≡ wait_loop registry images interval deadline fuel
            (suc round)
            (next_time registry images interval deadline round now)
  unfolding wait_loop
  wait_loop-go_on fuel round now e = rw e refl

  -- What is left of the wait after a round and the sleep: an interval less, or nothing.
  next_time-left :
      (round now rest : ℕ)
      → now + registry.delay round < deadline
      → deadline ≤ now + (interval + rest)
      → deadline ≤ next_time registry images interval deadline round now + rest
  next_time-left round now rest early e = ground arith

  loop-stops :
      (rounds round now : ℕ) (o : Outcome (Unit {0}))
      → round_of registry images interval deadline round now ≡ stop o
      → Ends (wait_loop registry images interval deadline (suc rounds) round now)
  unfolding Ends
  loop-stops rounds round now o stops =
      (o, (wait_loop-stop rounds round now o stops, round_of-Explained round now o stops))

  loop-Ends :
      (rounds round now : ℕ)
      → deadline ≤ now + rounds * interval
      → Ends (wait_loop registry images interval deadline (suc rounds) round now)
  unfolding Ends
  loop-Ends zero round now e =
      elim (Verdict-cases (round_of registry images interval deadline round now)) [
        | inl goes_on ↦ absurd (omega (arith, go_on-early round now goes_on, e))
        | inr (o, stops) ↦ loop-stops zero round now o stops
      ]
  loop-Ends (suc rounds) round now e =
      elim (Verdict-cases (round_of registry images interval deadline round now)) [
        | inl goes_on ↦
            let left =
              next_time-left round now (rounds * interval) (go_on-early round now goes_on)
                (omega (arith, e)) in
            let (o, (ends, why)) =
              loop-Ends rounds (suc round) (next_time registry images interval deadline round now)
                left in
            (o, (wait_loop-go_on (suc rounds) round now goes_on ∙ ends, why))
        | inr (o, stops) ↦ loop-stops (suc rounds) round now o stops
      ]

  -- The wait for the images ends after at most one round more than there are intervals in it, the last
  -- one begun counted; and if it ends without an exception, there was a round in which the registry had
  -- every image.
  pub wait_loop-Explained :
      (rounds : ℕ)
      → deadline ≤ rounds * interval
      → (o : Outcome (Unit {0})) × ((wait_loop registry images interval deadline (suc rounds) 0 0
            ≡ some o)
          × Explained o)
  unfolding Ends
  wait_loop-Explained rounds covers = loop-Ends rounds 0 0 (omega (arith, covers))

  -- The fuel of `wait_with` is enough.
  pub wait_loop-finishes :
      (ltb 0 deadline && interval == 0) ≡ false
      → (o : Outcome (Unit {0})) × (wait_loop registry images interval deadline (suc deadline) 0 0
          ≡ some o)
  wait_loop-finishes some_interval =
      let (o, (ends, _)) = wait_loop-Explained deadline (enough deadline interval some_interval) in
      (o, ends)
