-- ===== src/BreakdownWatch/Reports.antt =====
-- Which containers a sweep reports as fired, and which as recovered.
use infra.Prelude.{
  ℕ, String, ◌≡◌, refl, Bool, true, false, Option, none, some, List, [], ◌∷◌, arith, if◌then◌else◌,
  str_eq, eq_iff, Bool-cases, inl, inr, ◌∙◌,
}
use infra.Prelude.Dict.{
  Dict, lookup, insert, keys, contains, NodupKeys, lookup-insert, lookup_absent,
}
use infra.Recency.{Action, fire, resolve, quiet, Thresholds, evaluate_consecutive_hysteresis}
use infra.ContainerBreakdown.{Breakdown}
use infra.BreakdownWatch.{State, poll_broken, poll_all_broken, poll_all_others, prune, is_idle}
use infra.BreakdownWatch.Lookups.{names, OwnNames}

abbrev pub is_fire : Action → Bool
is_fire fire = true
is_fire resolve = false
is_fire quiet = false

abbrev pub is_resolve : Action → Bool
is_resolve fire = false
is_resolve resolve = true
is_resolve quiet = false

-- Each state's context is a breakdown of its own name.
abbrev pub OwnContexts : Dict State → Type 0
OwnContexts [] = Unit
OwnContexts ((name, s) ∷ d) =
    ((b : Breakdown) × (s.context ≡ some b) × (b.container ≡ name)) × OwnContexts d

module _ (t : Thresholds) (now : ℕ) (k : String) where
  abbrev pub fires : Option Breakdown → Option State → Bool
  fires none known = false
  fires (some b) known = is_fire (poll_broken t now known b).1

  pub contains-fresh :
      (broken : Dict Breakdown) (states : Dict State)
      → NodupKeys broken
      → OwnNames broken
      → contains k (names (poll_all_broken t now broken states).1)
        ≡ fires (lookup k broken) (lookup k states)
  unfolding poll_all_broken lookup
  contains-fresh [] states u o = refl
  contains-fresh ((name, b) ∷ rest) states (fresh, u) (own, o) =
      let state = (poll_broken t now (lookup name states) b).0 in
      elim (Bool-cases (str_eq name k)) [
        | inl same ↦ rw same (
            ground (
              arith,
              contains-fresh rest (insert name state states) u o,
              lookup_absent name rest fresh,
              eq_iff name k,
            ))
        | inr differ ↦ rw differ (
            ground (
              arith,
              contains-fresh rest (insert name state states) u o,
              lookup-insert k name state states,
            ))
      ]

  abbrev pub resolves : Bool → Option State → Bool
  resolves broken none = false
  resolves broken (some s) =
      if broken then false else is_resolve (evaluate_consecutive_hysteresis t s false now).1

  absent_recovered :
      (broken : List String) (states : Dict State)
      → OwnContexts states
      → contains k (keys states) ≡ false
      → contains k (names (poll_all_others t now broken states).1) ≡ false
  unfolding poll_all_others evaluate_consecutive_hysteresis
  absent_recovered broken [] o h = refl
  absent_recovered broken ((name, s) ∷ rest) ((b, stored, own), o) h =
      ground (arith, absent_recovered broken rest o, eq_iff name k)

  pub contains-recovered :
      (broken : List String) (states : Dict State)
      → NodupKeys states
      → OwnContexts states
      → contains k (names (poll_all_others t now broken states).1)
        ≡ resolves (contains k broken) (lookup k states)
  unfolding poll_all_others lookup evaluate_consecutive_hysteresis
  contains-recovered broken [] u o = refl
  contains-recovered broken ((name, s) ∷ rest) (fresh, u) ((b, stored, own), o) = ground (
    arith,
    contains-recovered broken rest u o,
    absent_recovered broken rest o,
    eq_iff name k,
    lookup_absent name rest fresh,
  )

insert-OwnContexts :
    (name : String) (s : State) (b : Breakdown) (d : Dict State)
    → s.context ≡ some b
    → b.container ≡ name
    → OwnContexts d
    → OwnContexts (insert name s d)
unfolding insert
insert-OwnContexts name s b [] stored own o = ((b, stored, own), tt)
insert-OwnContexts name s b ((j, s') ∷ d) stored own (here, o) = elim (Bool-cases (str_eq j name)) [
  | inl same ↦ rw same ((b, stored, own), o)
  | inr differ ↦ rw differ (here, insert-OwnContexts name s b d stored own o)
]

module _ (t : Thresholds) (now : ℕ) where
  context-poll_broken :
      (known : Option State) (b : Breakdown) → (poll_broken t now known b).0.context ≡ some b
  unfolding evaluate_consecutive_hysteresis
  context-poll_broken known b = ground arith

  pub poll_all_broken-OwnContexts :
      (broken : Dict Breakdown) (states : Dict State)
      → OwnNames broken
      → OwnContexts states
      → OwnContexts (poll_all_broken t now broken states).0
  unfolding poll_all_broken
  poll_all_broken-OwnContexts [] states own o = o
  poll_all_broken-OwnContexts ((name, b) ∷ rest) states (here, own) o =
      poll_all_broken-OwnContexts rest _ own
        (insert-OwnContexts name _ b states (context-poll_broken (lookup name states) b) here o)

  context-evaluate :
      (s : State) (bad : Bool) → (evaluate_consecutive_hysteresis t s bad now).0.context ≡ s.context
  unfolding evaluate_consecutive_hysteresis
  context-evaluate s true = ground arith
  context-evaluate s false = ground arith

  pub poll_all_others-OwnContexts :
      (broken : List String) (states : Dict State)
      → OwnContexts states
      → OwnContexts (poll_all_others t now broken states).0
  unfolding poll_all_others
  poll_all_others-OwnContexts broken [] o = tt
  poll_all_others-OwnContexts broken ((name, s) ∷ rest) ((b, stored, own), o) =
      let later = poll_all_others-OwnContexts broken rest o in
      elim (Bool-cases (contains name broken)) [
        | inl in_sweep ↦ rw in_sweep ((b, stored, own), later)
        | inr out ↦ rw out ((b, context-evaluate s false ∙ stored, own), later)
      ]

pub prune-OwnContexts : (states : Dict State) → OwnContexts states → OwnContexts (prune states)
unfolding prune
prune-OwnContexts [] o = tt
prune-OwnContexts ((name, s) ∷ rest) (here, o) = elim (Bool-cases (is_idle s)) [
  | inl idle ↦ rw idle (prune-OwnContexts rest o)
  | inr live ↦ rw live (here, prune-OwnContexts rest o)
]
