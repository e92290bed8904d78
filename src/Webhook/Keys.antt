-- ===== src/Webhook/Keys.antt =====
-- bootstrap/06.iac_runner/webhook_server.py: keys of deployments, which are equal by their values, in lists.
use infra.Prelude.{
  String, true, false, not, ◌&&◌, List, [], ◌∷◌, ◌≡◌, refl, sym, ap, ◌∙◌, inl, inr, arith, eq_iff,
  eq_refl, if◌then◌else◌, Bool-cases,
}
use infra.Webhook.Deploys.{Key, same_texts, same_key, is_in, discard}

-- One of the running deployments of the key is over.
unfoldable pub land : Key → List Key → List Key
land key [] = []
land key (k ∷ rest) = if same_key k key then rest else k ∷ land key rest

-- No key stands twice in the list.
unfoldable pub Once : List Key → Type 0
Once [] = Unit
Once (k ∷ rest) = (is_in k rest ≡ false) × Once rest

same_texts_refl : (l : List String) → same_texts l l ≡ true
same_texts_refl [] = refl
same_texts_refl (s ∷ l) = ground (arith, eq_refl s, same_texts_refl l)

same_texts-eq : (l m : List String) → same_texts l m ≡ true → l ≡ m
same_texts-eq [] [] h = refl
same_texts-eq [] (t ∷ m) h = ground (arith, h)
same_texts-eq (s ∷ l) [] h = ground (arith, h)
same_texts-eq (s ∷ l) (t ∷ m) h = ground (arith, h, eq_iff s t, same_texts-eq l m)

pub same_key_refl : (k : Key) → same_key k k ≡ true
unfolding same_key
same_key_refl k = ground (arith, eq_refl k.env, eq_refl k.ref, same_texts_refl k.services)

pub same_key-eq : (j k : Key) → same_key j k ≡ true → j ≡ k
unfolding same_key
same_key-eq j k h =
    ground (arith, h, eq_iff j.env k.env, eq_iff j.ref k.ref, same_texts-eq j.services k.services)

pub same_key-sym : (j k : Key) → same_key j k ≡ same_key k j
same_key-sym j k = elim (Bool-cases (same_key j k)) [
  | inl same ↦
      let is : j ≡ k = same_key-eq j k same in
      ap (λ k. same_key j k) (sym is) ∙ ap (λ j'. same_key j' j) is
  | inr other ↦ elim (Bool-cases (same_key k j)) [
    | inl same ↦
        ap (λ j. same_key j k) (sym (same_key-eq k j same))
        ∙ ap (λ j'. same_key k j') (same_key-eq k j same)
    | inr other' ↦ other ∙ sym other'
  ]
]

pub same_key-left : (j k l : Key) → same_key j k ≡ true → same_key j l ≡ same_key k l
same_key-left j k l h = ap (λ x. same_key x l) (same_key-eq j k h)

is_in-same : (j k : Key) (l : List Key) → same_key j k ≡ true → is_in j l ≡ is_in k l
is_in-same j k l h = ap (λ x. is_in x l) (same_key-eq j k h)

-- What is left when one deployment is over.
pub is_in-land :
    (key j : Key) (l : List Key)
    → Once l
    → is_in j (land key l) ≡ (is_in j l && not (same_key key j))
unfolding land Once
is_in-land key j [] u = refl
is_in-land key j (k ∷ rest) (fresh, u) = ground (
  arith,
  fresh,
  is_in-land key j rest u,
  same_key-left k key j,
  same_key-left k j key,
  same_key-sym key j,
  is_in-same k j rest,
)

pub is_in-discard :
    (key j : Key) (l : List Key) → is_in j (discard key l) ≡ (is_in j l && not (same_key key j))
unfolding discard
is_in-discard key j [] = refl
is_in-discard key j (k ∷ rest) = ground (
  arith,
  is_in-discard key j rest,
  same_key-left k key j,
  same_key-left k j key,
  same_key-sym key j,
)

pub land-Once : (key : Key) (l : List Key) → Once l → Once (land key l)
unfolding land Once
land-Once key [] u = tt
land-Once key (k ∷ rest) (fresh, u) =
    ground (arith, fresh, land-Once key rest u, u, is_in-land key k rest u)
