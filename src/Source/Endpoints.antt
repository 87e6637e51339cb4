-- ===== src/Source/Endpoints.antt =====
-- The root conditions and the leaf conditions of startUpdates.
use native.Mathlib.Decide.{ℕ_discrete}
use go_bitflow_collector.Prelude.{
  ℕ, ◌≡◌, refl, true, false, List, [], ◌∷◌, ◌++◌, contains, arith, contains-append,
}
use go_bitflow_collector.Source.Conditions.{
  Conditions, add_precondition, add_postcondition, add_roots, add_leafs,
}
use go_bitflow_collector.Source.Owned.{
  IsOwned, Grows, Grows-refl, Grows-trans, add_postcondition-Grows, add_precondition-IsOwned,
  add_postcondition-IsOwned,
}

-- A list of the keys of a map names each once.
abbrev pub AreDistinct : List ℕ → Type 0
AreDistinct [] = Unit {0}
AreDistinct (n ∷ ns) = (contains n ns ≡ false) × AreDistinct ns

pub contains_last : (c : ℕ) (xs : List ℕ) → contains c (xs ++ c ∷ []) ≡ true
unfolding contains
contains_last c xs = ground (arith, contains-append c xs (c ∷ []))

-- What the loop over the roots does.
pub record RootsAdded (roots : List ℕ) (s : Conditions) (conditions : List ℕ) (s' : Conditions)
    : Type 0 where
  pub owned : IsOwned s → IsOwned s'
  pub other : (k : ℕ) → contains k roots ≡ false → s'.preconditions k ≡ s.preconditions k
  pub root :
      (k : ℕ)
      → contains k roots ≡ true
      → (c : ℕ) × (s'.preconditions k ≡ s.preconditions k ++ c ∷ [])
        × (contains c conditions ≡ true)

pub add_roots-RootsAdded :
    (roots : List ℕ) (s : Conditions)
    → AreDistinct roots
    → RootsAdded roots s (add_roots roots s).0 (add_roots roots s).1
unfolding add_roots contains add_precondition
add_roots-RootsAdded [] s h = record {
  owned = λ o. o;
  other = λ k c. refl;
  root = λ k c. absurd (cc c);
}
add_roots-RootsAdded (n ∷ roots) s (fresh, h) =
    let r = add_roots-RootsAdded roots (add_precondition n s) h in
    record {
      owned = λ o. r.owned (add_precondition-IsOwned n s o);
      other = λ k c. ground (arith, c, r.other k);
      root = λ k c. elim (ℕ_discrete n k) [
        | yes same ↦ (s.made, ground (arith, same, fresh, r.other k), ground arith)
        | no other ↦
            let (cond, e, listed) = r.root k (ground (arith, c)) in
            (cond, ground (arith, e), ground (arith, listed))
      ];
    }

-- What the loop over the leafs does.
pub record LeafsAdded (leafs : List ℕ) (s : Conditions) (conditions : List ℕ) (s' : Conditions)
    : Type 0 where
  pub owned : IsOwned s → IsOwned s'
  pub grows : Grows s s'
  pub same : (k : ℕ) → s'.preconditions k ≡ s.preconditions k
  pub leaf :
      (k : ℕ)
      → contains k leafs ≡ true
      → (c : ℕ) × (contains c (s'.postconditions k) ≡ true) × (contains c conditions ≡ true)

pub add_leafs-LeafsAdded :
    (leafs : List ℕ) (s : Conditions)
    → LeafsAdded leafs s (add_leafs leafs s).0 (add_leafs leafs s).1
unfolding add_leafs contains add_postcondition
add_leafs-LeafsAdded [] s = record {
  owned = λ o. o;
  grows = Grows-refl s;
  same = λ k. refl;
  leaf = λ k c. absurd (cc c);
}
add_leafs-LeafsAdded (n ∷ leafs) s =
    let r = add_leafs-LeafsAdded leafs (add_postcondition n s) in
    record {
      owned = λ o. r.owned (add_postcondition-IsOwned n s o);
      grows = Grows-trans (add_postcondition-Grows n s) r.grows;
      same = r.same;
      leaf = λ k c. elim (ℕ_discrete n k) [
        | yes same ↦ (
          s.made,
          r.grows.kept_post k s.made
              (ground (arith, same, contains_last s.made (s.postconditions k))),
          ground arith,
        )
        | no other ↦
            let (cond, e, listed) = r.leaf k (ground (arith, c)) in
            (cond, e, ground (arith, listed))
      ];
    }
