-- ===== src/Psutil/Tables.antt =====
-- Lemmas on the equality of texts, and on tables whose keys are texts.
use go_bitflow_collector.Prelude.{
  ◌≡◌, refl, sym, ap, true, none, some, List, [], ◌∷◌, if◌then◌else◌, ◌||◌, arith, Bool-cases,
  false, inl, inr,
}
use go_bitflow_collector.Pcap.{Text, eq_text}
use go_bitflow_collector.Psutil.{has_name, find, store}

pub eq_text_self : (x : Text) → eq_text x x ≡ true
unfolding eq_text
eq_text_self [] = refl
eq_text_self (b ∷ x) = ground (arith, eq_text_self x)

pub eq_text_eq : (x y : Text) → eq_text x y ≡ true → x ≡ y
unfolding eq_text
eq_text_eq [] [] h = refl
eq_text_eq [] (c ∷ y) h = absurd (cc h)
eq_text_eq (b ∷ x) [] h = absurd (cc h)
eq_text_eq (b ∷ x) (c ∷ y) h =
    let rest : x ≡ y = eq_text_eq x y (ground (arith, h)) in
    let first : b ≡ c = ground (arith, h) in cc (rest, first)

pub has_name-store {ℓ} :
    {V : Type ℓ} (name k : Text) (v : V) (m : List (Text × V))
    → has_name name (store k v m) ≡ (eq_text k name || has_name name m)
unfolding has_name store
has_name-store name k v [] = refl
has_name-store name k v ((key, w) ∷ m) =
    let rest = has_name-store name k v m in
    elim (Bool-cases (eq_text key k)) [
      | inl same ↦
          let keys : eq_text key name ≡ eq_text k name =
            ap (λ (t : Text). eq_text t name) (eq_text_eq key k same) in
          ground (arith, same, keys)
      | inr other ↦ ground (arith, other, rest)
    ]

pub eq_text_sym : (x y : Text) → eq_text x y ≡ eq_text y x
unfolding eq_text
eq_text_sym [] [] = refl
eq_text_sym [] (c ∷ y) = refl
eq_text_sym (b ∷ x) [] = refl
eq_text_sym (b ∷ x) (c ∷ y) = ground (arith, eq_text_sym x y)

pub find-store {ℓ} :
    {V : Type ℓ} (name k : Text) (v : V) (m : List (Text × V))
    → find name (store k v m) ≡ (if eq_text k name then some v else find name m)
unfolding find store
find-store name k v [] = refl
find-store name k v ((key, w) ∷ m) =
    let rest = find-store name k v m in
    elim (Bool-cases (eq_text key k)) [
      | inl same ↦
          let keys : eq_text key name ≡ eq_text k name =
            ap (λ (t : Text). eq_text t name) (eq_text_eq key k same) in
          ground (arith, same, keys)
      | inr other ↦ elim (Bool-cases (eq_text k name)) [
        | inl found ↦
            let keys : eq_text key name ≡ eq_text key k =
              ap (eq_text key) (sym (eq_text_eq k name found)) in
            ground (arith, other, found, keys, rest)
        | inr apart ↦ ground (arith, other, apart, rest)
      ]
    ]

pub find-has_name {ℓ} :
    {V : Type ℓ} (name : Text) (m : List (Text × V))
    → has_name name m ≡ true
    → (v : V) × (find name m ≡ some v)
unfolding has_name find
find-has_name name [] h = absurd (ground (arith, h))
find-has_name name ((key, v) ∷ m) h = elim (Bool-cases (eq_text key name)) [
  | inl same ↦ (v, ground (arith, same))
  | inr other ↦
      let (w, e) = find-has_name name m (ground (arith, other, h)) in (w, ground (arith, other, e))
]

pub find_missing {ℓ} :
    {V : Type ℓ} (name : Text) (m : List (Text × V)) → has_name name m ≡ false → find name m ≡ none
unfolding has_name find
find_missing name [] h = refl
find_missing name ((key, v) ∷ m) h = elim (Bool-cases (eq_text key name)) [
  | inl same ↦ ground (arith, same, h)
  | inr other ↦ ground (arith, other, h, find_missing name m (ground (arith, other, h)))
]
