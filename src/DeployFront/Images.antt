-- ===== src/DeployFront/Images.antt =====
-- tools/deploy_v2.py: the images that a deploy pulls are awaited in the registry, whose answers are
-- parameters. The source's seconds are floats: here a time is a number of ticks, of which a second has
-- as many as the times of the run need to be whole; that float sums are rounded is left out.
pub mod Registry
pub mod Waits
use infra.Prelude.Errors.{◌>>=◌}
use infra.Prelude.Text.{strip}
use infra.Prelude.{
  ℕ, zero, suc, max, ◌+◌, ◌-◌, ◌*◌, String, str_eq, Bool, true, false, not, ◌&&◌, ◌||◌, Option,
  none, some, List, [], ◌∷◌, ◌==◌, leb, ltb, if◌then◌else◌,
}
use infra.Prelude.Effects.{
  Failure, value_error, runtime_error, http_error, timeout_error, Outcome, ok, raised,
}

-- What one round of requests finds: the images that are missing, and those that cannot be judged.
pub record Round : Type 0 where
  pub missing : List String
  pub errors : List String

abbrev pub all_there : Round
all_there = record { missing = []; errors = [] }

-- One image in front of the others. `except (RuntimeError, httpx.HTTPError)` lets other exceptions
-- through.
abbrev pub add_image : String → Outcome Bool → Outcome Round → Outcome Round
add_image image (raised value_error) r = raised value_error
add_image image (raised timeout_error) r = raised timeout_error
add_image image answer (raised failure) = raised failure
add_image image (ok true) (ok r) = ok r
add_image image (ok false) (ok r) = ok (record r { missing = image ∷ r.missing })
add_image image (raised _) (ok r) = ok (record r { errors = image ∷ r.errors })

unfoldable pub look_for : (String → Outcome Bool) → List String → Outcome Round
look_for exists_image [] = ok all_there
look_for exists_image (image ∷ rest) =
    add_image image (exists_image image) (look_for exists_image rest)

-- Whether the loop goes on after a round.
pub data Verdict : Type 0 where
  go_on : Verdict
  stop : Outcome (Unit {0}) → Verdict

abbrev pub is_empty : List String → Bool
is_empty [] = true
is_empty _ = false

abbrev pub judge_round : Outcome Round → (late : Bool) → Verdict
judge_round (raised failure) late = stop (raised failure)
judge_round (ok r) late =
    if is_empty r.missing && is_empty r.errors
    then stop (ok tt)
    else if late
    then stop (raised runtime_error)
    else go_on

-- What is asked of the registry in each round, and how many ticks the round takes.
pub record Artifacts : Type 0 where
  pub exists_image : ℕ → String → Outcome Bool
  pub delay : ℕ → ℕ

abbrev pub min : ℕ → ℕ → ℕ
min a b = if leb a b then a else b

module _ (registry : Artifacts) (images : List String) (interval deadline : ℕ) where
  abbrev pub round_of : (round now : ℕ) → Verdict
  round_of round now =
      judge_round (look_for (registry.exists_image round) images)
        (leb deadline (now + registry.delay round))

  -- The time of the next round: the sleep stops at the deadline.
  abbrev pub next_time : (round now : ℕ) → ℕ
  next_time round now = let t = now + registry.delay round in t + min interval (deadline - t)

  abbrev conclude : Verdict → Option (Outcome (Unit {0})) → Option (Outcome (Unit {0}))
  conclude (stop o) later = some o
  conclude go_on later = later

  -- The loop, on fuel; `none` is a loop that is not over yet.
  unfoldable pub wait_loop : (fuel round now : ℕ) → Option (Outcome (Unit {0}))
  unfolding look_for
  wait_loop zero round now = none
  wait_loop (suc fuel) round now =
      let later = wait_loop fuel (suc round) (next_time round now) in
      conclude (round_of round now) later

-- A loop that would not be over; `Waits` proves that there is none.
abbrev pub finished : Option (Outcome (Unit {0})) → Outcome (Unit {0})
finished (some o) = o
finished none = raised timeout_error

-- What `float` makes of a text or an option.
pub data Seconds : Type 0 where
  ticks : ℕ → Seconds
  negative : Seconds
  not_finite : Seconds

-- `float`, and the ticks of a second.
pub record Floats : Type 0 where
  pub float_of : String → Option Seconds
  pub ticks_per_second : ℕ

abbrev finite : Seconds → Option ℕ
finite (ticks n) = some n
finite _ = none

-- `_env_number`, from the text of the variable, which is empty if it is not set; `none` is a
-- `ValueError`.
unfoldable pub env_number : Floats → (raw : String) → (default : ℕ) → Option ℕ
unfolding strip
env_number floats raw default =
    if str_eq (strip raw) ""
    then some (default * floats.ticks_per_second)
    else floats.float_of (strip raw) >>= finite

abbrev pub or_default : Option Seconds → ℕ → Seconds
or_default none n = ticks n
or_default (some s) _ = s

module _ (registry : Artifacts) (images : List String) where
  -- The wait, once both numbers are known.
  unfoldable pub wait_with : (max_wait interval : Seconds) → Outcome (Unit {0})
  unfolding wait_loop
  wait_with (ticks max_wait) (ticks interval) =
      if ltb 0 max_wait && interval == 0
      then raised value_error
      else finished (wait_loop registry images interval max_wait (suc max_wait) 0 0)
  wait_with _ _ = raised value_error

  abbrev wait_from :
      (env_wait env_poll : Option ℕ) (timeout poll_seconds : Option Seconds) → Outcome (Unit {0})
  wait_from none env_poll timeout poll_seconds = raised value_error
  wait_from (some max_wait) none timeout poll_seconds = raised value_error
  wait_from (some max_wait) (some interval) timeout poll_seconds =
      wait_with (or_default timeout max_wait) (or_default poll_seconds interval)

-- `_wait_for_image_dependencies`, with the texts of the two environment variables.
unfoldable pub wait_for_image_dependencies :
    Floats
    → Artifacts
    → (images : List String) (env_wait env_poll : String) (timeout poll_seconds : Option Seconds)
    → Outcome (Unit {0})
unfolding wait_with env_number
wait_for_image_dependencies floats registry images env_wait env_poll timeout poll_seconds =
    if is_empty images
    then ok tt
    else wait_from registry images (env_number floats env_wait 300) (env_number floats env_poll 10)
        timeout poll_seconds
