-- ===== src/IacRunnerClient/Polls.antt =====
-- libs/iac_runner_client.py: how the poll of a deploy ends.
use infra.Prelude.{
  ℕ, zero, suc, max, ◌+◌, ◌<◌, ◌≤◌, ◌⊎◌, String, Bool, true, false, Option, none, some, List, ◌≡◌,
  refl, sym, ap, ◌∙◌, ◌↔◌, inl, inr, arith, Option-cases, Bool-cases, ltb, subst,
}
use infra.Prelude.Effects.{Outcome, ok}
use infra.IacRunnerClient.{
  Reply, Answer, StatusQuery, step, poll_loop, poll_platform_deploy_status, may_poll, query_of,
  verdict,
}

-- Of the attempts from number `attempt` on that are left, the first that ends the loop returns `r`.
pub record Settles (answers : ℕ → Answer) (left attempt : ℕ) (r : Reply) : Type 0 where
  pub index : ℕ
  pub not_before : attempt ≤ index
  pub in_time : index < attempt + left
  pub ends : step (answers index) ≡ some (ok r)
  pub first : (j : ℕ) → attempt ≤ j → j < index → step (answers j) ≡ none

is_or_is_past : (a j : ℕ) → a ≤ j → (a ≡ j) ⊎ (suc a ≤ j)
is_or_is_past a j h = elim (Bool-cases (ltb a j)) [
  | inl past ↦ inr (ground arith)
  | inr same ↦ inl (ground arith)
]

module _ (answers : ℕ → Answer) (r : Reply) where
  at_once :
      (left attempt : ℕ)
      → step (answers attempt) ≡ some (ok r)
      → Settles answers (suc left) attempt r
  at_once left attempt e = record {
    index = attempt;
    not_before = omega arith;
    in_time = omega arith;
    ends = e;
    first = λ j h k. absurd (omega (arith, h, k));
  }

  later :
      (left attempt : ℕ)
      → step (answers attempt) ≡ none
      → Settles answers left (suc attempt) r
      → Settles answers (suc left) attempt r
  later left attempt e w = record {
    index = w.index;
    not_before = omega (arith, w.not_before);
    in_time = omega (arith, w.in_time);
    ends = w.ends;
    first = λ j h k. elim (is_or_is_past attempt j h) [
      | inl same ↦ subst (λ j. step (answers j) ≡ none) same e
      | inr past ↦ w.first j past k
    ];
  }

  sooner :
      (left attempt : ℕ)
      → (w : Settles answers (suc left) attempt r) → suc attempt ≤ w.index
      → Settles answers left (suc attempt) r
  sooner left attempt w past = record {
    index = w.index;
    not_before = past;
    in_time = omega (arith, w.in_time);
    ends = w.ends;
    first = λ j h k. w.first j (omega (arith, h)) k;
  }

  loop_next :
      (left attempt : ℕ)
      → step (answers attempt) ≡ none
      → poll_loop (suc left) attempt answers ≡ poll_loop left (suc attempt) answers
  unfolding poll_loop
  loop_next left attempt e = rw e refl

  loop_end :
      (left attempt : ℕ) (o : Outcome Reply)
      → step (answers attempt) ≡ some o
      → poll_loop (suc left) attempt answers ≡ o
  unfolding poll_loop
  loop_end left attempt o e = rw e refl

  poll_loop-Settles :
      (left attempt : ℕ) → poll_loop left attempt answers ≡ ok r → Settles answers left attempt r
  unfolding poll_loop
  poll_loop-Settles zero attempt e = ground arith
  poll_loop-Settles (suc left) attempt e = elim (Option-cases (step (answers attempt))) [
    | inl goes_on ↦
        later left attempt goes_on
          (poll_loop-Settles left (suc attempt) (sym (loop_next left attempt goes_on) ∙ e))
    | inr (o, is) ↦ at_once left attempt (is ∙ ap some (sym (loop_end left attempt o is) ∙ e))
  ]

  Settles-poll_loop :
      (left attempt : ℕ) → Settles answers left attempt r → poll_loop left attempt answers ≡ ok r
  Settles-poll_loop zero attempt w = absurd (omega (arith, w.not_before, w.in_time))
  Settles-poll_loop (suc left) attempt w = elim (is_or_is_past attempt w.index w.not_before) [
    | inl same ↦ loop_end left attempt (ok r) (ap (λ i. step (answers i)) same ∙ w.ends)
    | inr past ↦
        loop_next left attempt (w.first attempt (omega arith) past)
        ∙ Settles-poll_loop left (suc attempt) (sooner left attempt w past)
  ]

verdict-ok :
    (b : Bool) (o : Outcome Reply) (r : Reply) → (verdict b o ≡ ok r) ↔ ((b ≡ true) × (o ≡ ok r))
verdict-ok true o r = (λ e. (refl, e), λ (_, e). e)
verdict-ok false o r = (λ e. ground arith, λ (h, _). ground arith)

-- A poll returns a reply exactly if its inputs may be signed and the reply is what the first
-- settling answer says, among as many answers as there are attempts, or the first answer if there
-- are none.
pub poll_platform_deploy_status-Settles :
    (answers : StatusQuery → ℕ → Answer) (env ref : String) (services : Option (List String))
    (deployment_id : Option String) (base_url secret triggered_by : String) (attempts : ℕ)
    (r : Reply)
    → (poll_platform_deploy_status answers env ref services deployment_id base_url secret
          triggered_by attempts
        ≡ ok r)
      ↔ ((may_poll (query_of env ref services deployment_id triggered_by) secret base_url ≡ true)
          × Settles
              (answers (query_of env ref services deployment_id triggered_by))
              (max 1 attempts)
              0
              r)
unfolding poll_platform_deploy_status
poll_platform_deploy_status-Settles answers env ref services deployment_id base_url secret
      triggered_by attempts r =
    let query = query_of env ref services deployment_id triggered_by in
    let both =
      verdict-ok (may_poll query secret base_url) (poll_loop (max 1 attempts) 0 (answers query))
        r in
    (
      λ e.
          let (may, polled) = both.0 e in
          (may, poll_loop-Settles (answers query) r (max 1 attempts) 0 polled),
      λ (may, w). both.1 (may, Settles-poll_loop (answers query) r (max 1 attempts) 0 w),
    )
