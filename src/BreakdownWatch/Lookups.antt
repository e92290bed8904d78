-- ===== src/BreakdownWatch/Lookups.antt =====
-- What the loops of a sweep do to one container's name.
use infra.Prelude.{
  ℕ, String, ◌≡◌, refl, Bool, false, ◌||◌, Option, none, some, List, [], ◌∷◌, arith, if◌then◌else◌,
  str_eq, eq_iff, Bool-cases, inl, inr,
}
use infra.Prelude.Dict.{
  Dict, lookup, insert, keys, contains, NodupKeys, lookup-insert, insert-NodupKeys, lookup_absent,
  contains-insert,
}
use infra.Recency.{Thresholds, evaluate_consecutive_hysteresis}
use infra.ContainerBreakdown.{Breakdown}
use infra.BreakdownWatch.{
  State, broken_by_name, poll_broken, poll_all_broken, poll_all_others, is_idle, prune,
}

abbrev pub names : List Breakdown → List String
names [] = []
names (b ∷ bs) = b.container ∷ names bs

-- Every breakdown stands under its own name.
abbrev pub OwnNames : Dict Breakdown → Type 0
OwnNames [] = Unit
OwnNames ((name, b) ∷ d) = (b.container ≡ name) × OwnNames d

insert-OwnNames :
    (b : Breakdown) (d : Dict Breakdown) → OwnNames d → OwnNames (insert b.container b d)
unfolding insert
insert-OwnNames b [] o = (refl, tt)
insert-OwnNames b ((name, c) ∷ d) o = ground (arith, insert-OwnNames b d)

pub broken_by_name-OwnNames :
    (bs : List Breakdown) (d : Dict Breakdown) → OwnNames d → OwnNames (broken_by_name bs d)
unfolding broken_by_name
broken_by_name-OwnNames [] d o = o
broken_by_name-OwnNames (b ∷ bs) d o = broken_by_name-OwnNames bs _ (insert-OwnNames b d o)

pub broken_by_name-NodupKeys :
    (bs : List Breakdown) (d : Dict Breakdown) → NodupKeys d → NodupKeys (broken_by_name bs d)
unfolding broken_by_name
broken_by_name-NodupKeys [] d u = u
broken_by_name-NodupKeys (b ∷ bs) d u = broken_by_name-NodupKeys bs _ (insert-NodupKeys _ b d u)

pub contains-broken_by_name :
    (k : String) (bs : List Breakdown) (d : Dict Breakdown)
    → contains k (keys (broken_by_name bs d)) ≡ (contains k (names bs) || contains k (keys d))
unfolding broken_by_name
contains-broken_by_name k [] d = refl
contains-broken_by_name k (b ∷ bs) d = ground (
  arith,
  contains-broken_by_name k bs (insert b.container b d),
  contains-insert k b.container b d,
)

-- The three passes at one name: a broken name is polled once, the others are polled as healthy,
-- and an idle state is forgotten.
module _ (t : Thresholds) (now : ℕ) where
  abbrev pub polled : Option Breakdown → Option State → Option State
  polled none known = known
  polled (some b) known = some (poll_broken t now known b).0

  abbrev pub rested : Bool → Option State → Option State
  rested broken none = none
  rested broken (some s) =
      some (if broken then s else (evaluate_consecutive_hysteresis t s false now).0)

abbrev pub kept : Option State → Option State
kept none = none
kept (some s) = if is_idle s then none else some s

module _ (t : Thresholds) (now : ℕ) (k : String) where
  pub lookup-poll_all_broken :
      (broken : Dict Breakdown) (states : Dict State)
      → NodupKeys broken
      → lookup k (poll_all_broken t now broken states).0
        ≡ polled t now (lookup k broken) (lookup k states)
  unfolding poll_all_broken lookup
  lookup-poll_all_broken [] states u = refl
  lookup-poll_all_broken ((name, b) ∷ rest) states (fresh, u) =
      let state = (poll_broken t now (lookup name states) b).0 in
      elim (Bool-cases (str_eq name k)) [
        | inl same ↦ rw same (
            ground (
              arith,
              lookup-poll_all_broken rest (insert name state states) u,
              lookup-insert k name state states,
              lookup_absent name rest fresh,
              eq_iff name k,
            ))
        | inr differ ↦ rw differ (
            ground (
              arith,
              lookup-poll_all_broken rest (insert name state states) u,
              lookup-insert k name state states,
            ))
      ]

  pub lookup-poll_all_others :
      (broken : List String) (states : Dict State)
      → lookup k (poll_all_others t now broken states).0
        ≡ rested t now (contains k broken) (lookup k states)
  unfolding poll_all_others lookup
  lookup-poll_all_others broken [] = refl
  lookup-poll_all_others broken ((name, s) ∷ rest) =
      ground (arith, lookup-poll_all_others broken rest, eq_iff name k)

  pub lookup-prune :
      (states : Dict State) → NodupKeys states → lookup k (prune states) ≡ kept (lookup k states)
  unfolding prune lookup
  lookup-prune [] u = refl
  lookup-prune ((name, s) ∷ rest) (fresh, u) =
      ground (arith, lookup-prune rest u, eq_iff name k, lookup_absent name rest fresh)

module _ (t : Thresholds) (now : ℕ) where
  pub poll_all_broken-NodupKeys :
      (broken : Dict Breakdown) (states : Dict State)
      → NodupKeys states
      → NodupKeys (poll_all_broken t now broken states).0
  unfolding poll_all_broken
  poll_all_broken-NodupKeys [] states u = u
  poll_all_broken-NodupKeys ((name, b) ∷ rest) states u =
      poll_all_broken-NodupKeys rest _ (insert-NodupKeys name _ states u)

  keys-poll_all_others :
      (broken : List String) (states : Dict State)
      → keys (poll_all_others t now broken states).0 ≡ keys states
  unfolding poll_all_others
  keys-poll_all_others broken [] = refl
  keys-poll_all_others broken ((name, s) ∷ rest) = ground (arith, keys-poll_all_others broken rest)

  pub poll_all_others-NodupKeys :
      (broken : List String) (states : Dict State)
      → NodupKeys states
      → NodupKeys (poll_all_others t now broken states).0
  unfolding poll_all_others
  poll_all_others-NodupKeys broken [] u = tt
  poll_all_others-NodupKeys broken ((name, s) ∷ rest) (fresh, u) =
      ground (arith, poll_all_others-NodupKeys broken rest u, keys-poll_all_others broken rest)

contains-prune :
    (k : String) (states : Dict State)
    → contains k (keys states) ≡ false
    → contains k (keys (prune states)) ≡ false
unfolding prune
contains-prune k [] h = refl
contains-prune k ((name, s) ∷ rest) h = ground (arith, contains-prune k rest)

pub prune-NodupKeys : (states : Dict State) → NodupKeys states → NodupKeys (prune states)
unfolding prune
prune-NodupKeys [] u = tt
prune-NodupKeys ((name, s) ∷ rest) (fresh, u) =
    ground (arith, prune-NodupKeys rest u, contains-prune name rest)
