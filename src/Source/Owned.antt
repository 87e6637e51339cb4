-- ===== src/Source/Owned.antt =====
-- The conditions of startUpdates have owners: each has one node that waits for it, and one that sets
-- it. The steps by which they are made keep this.
use go_bitflow_collector.Prelude.{
  ℕ, zero, suc, ◌<◌, ◌≡◌, refl, ◌∙◌, sym, true, some, List, [], ◌∷◌, ◌++◌, ◌==◌, if◌then◌else◌,
  length, get_elem?, contains, arith, contains-append, inl, inr, ◌⊎◌,
}
use go_bitflow_collector.Source.Conditions.{
  Conditions, no_conditions, add_precondition, add_postcondition, add_both,
}

pub get_elem?-contains : (xs : List ℕ) (i c : ℕ) → get_elem? xs i ≡ some c → contains c xs ≡ true
unfolding contains
get_elem?-contains [] i c e = absurd (cc e)
get_elem?-contains (x ∷ xs) zero c e = let same : x ≡ c = cc e in ground (arith, same)
get_elem?-contains (x ∷ xs) (suc i) c e = ground (arith, get_elem?-contains xs i c e)

get_elem?-append {ℓ} :
    {A : Type ℓ} (xs ys : List A) (i : ℕ) (a : A)
    → get_elem? xs i ≡ some a
    → get_elem? (xs ++ ys) i ≡ some a
get_elem?-append [] ys i a e = absurd (cc e)
get_elem?-append (x ∷ xs) ys zero a e = e
get_elem?-append (x ∷ xs) ys (suc i) a e = get_elem?-append xs ys i a e

pub get_elem?-append_last {ℓ} :
    {A : Type ℓ} (xs : List A) (a : A) → get_elem? (xs ++ a ∷ []) (length xs) ≡ some a
get_elem?-append_last [] a = refl
get_elem?-append_last (x ∷ xs) a = get_elem?-append_last xs a

-- Every condition has at most one node that waits for it and at most one that sets it.
pub record IsOwned (s : Conditions) : Type 0 where
  pub made_pre : (c k : ℕ) → contains c (s.preconditions k) ≡ true → c < s.made
  pub made_post : (c k : ℕ) → contains c (s.postconditions k) ≡ true → c < s.made
  pub one_waits :
      (c k k' : ℕ)
      → contains c (s.preconditions k) ≡ true
      → contains c (s.preconditions k') ≡ true
      → k ≡ k'
  pub one_sets :
      (c k k' : ℕ)
      → contains c (s.postconditions k) ≡ true
      → contains c (s.postconditions k') ≡ true
      → k ≡ k'

contains-added :
    (c new k n : ℕ) (f : ℕ → List ℕ)
    → contains c (if k == n then f k ++ new ∷ [] else f k) ≡ true
    → (contains c (f k) ≡ true) ⊎ ((c ≡ new) × (k ≡ n))
unfolding contains
contains-added c new k n f h = ground (arith, h, contains-append c (f k) (new ∷ []))

-- The conditions of a node stay with it.
pub record Grows (s s' : Conditions) : Type 0 where
  pub kept :
      (k i c : ℕ)
      → get_elem? (s.preconditions k) i ≡ some c
      → get_elem? (s'.preconditions k) i ≡ some c
  pub kept_post :
      (k c : ℕ) → contains c (s.postconditions k) ≡ true → contains c (s'.postconditions k) ≡ true

pub Grows-refl : (s : Conditions) → Grows s s
Grows-refl s = record { kept = λ k i c e. e; kept_post = λ k c h. h }

pub Grows-trans : {s s' s'' : Conditions} → Grows s s' → Grows s' s'' → Grows s s''
Grows-trans a b = record {
  kept = λ k i c e. b.kept k i c (a.kept k i c e);
  kept_post = λ k c h. b.kept_post k c (a.kept_post k c h);
}

kept_added :
    (new k n i c : ℕ) (f : ℕ → List ℕ)
    → get_elem? (f k) i ≡ some c
    → get_elem? (if k == n then f k ++ new ∷ [] else f k) i ≡ some c
kept_added new k n i c f e = ground (arith, e, get_elem?-append (f k) (new ∷ []) i c e)

pub contains_added :
    (new k n c : ℕ) (f : ℕ → List ℕ)
    → contains c (f k) ≡ true
    → contains c (if k == n then f k ++ new ∷ [] else f k) ≡ true
contains_added new k n c f h = ground (arith, h, contains-append c (f k) (new ∷ []))

pub add_precondition-Grows : (n : ℕ) (s : Conditions) → Grows s (add_precondition n s)
unfolding add_precondition
add_precondition-Grows n s = record {
  kept = λ k i c. kept_added s.made k n i c s.preconditions;
  kept_post = λ k c h. h;
}

pub add_postcondition-Grows : (n : ℕ) (s : Conditions) → Grows s (add_postcondition n s)
unfolding add_postcondition
add_postcondition-Grows n s = record {
  kept = λ k i c e. e;
  kept_post = λ k c. contains_added s.made k n c s.postconditions;
}

pub add_both-Grows : (n m : ℕ) (s : Conditions) → Grows s (add_both n m s)
unfolding add_both
add_both-Grows n m s = record {
  kept = λ k i c. kept_added s.made k n i c s.preconditions;
  kept_post = λ k c. contains_added s.made k m c s.postconditions;
}

-- Where the conditions in the lists `f` are below `new` and each has one node: so it is when `new`
-- has been added.
module _ (f : ℕ → List ℕ) (new n : ℕ) (below : (c k : ℕ) → contains c (f k) ≡ true → c < new) where
  added_below :
      (c k : ℕ) → contains c (if k == n then f k ++ new ∷ [] else f k) ≡ true → c < suc new
  added_below c k h = elim (contains-added c new k n f h) [
    | inl old ↦ omega (arith, below c k old)
    | inr (e, e') ↦ omega (arith, e)
  ]

  added_once :
      ((c k k' : ℕ) → contains c (f k) ≡ true → contains c (f k') ≡ true → k ≡ k')
      → (c k k' : ℕ) → contains c (if k == n then f k ++ new ∷ [] else f k) ≡ true
      → contains c (if k' == n then f k' ++ new ∷ [] else f k') ≡ true
      → k ≡ k'
  added_once once c k k' h h' = elim (contains-added c new k n f h) [
    | inl old ↦ elim (contains-added c new k' n f h') [
      | inl old' ↦ once c k k' old old'
      | inr (e, e') ↦ absurd (omega (arith, below c k old, e))
    ]
    | inr (e, same) ↦ elim (contains-added c new k' n f h') [
      | inl old' ↦ absurd (omega (arith, below c k' old', e))
      | inr (e', same') ↦ same ∙ sym same'
    ]
  ]

pub add_precondition-IsOwned : (n : ℕ) (s : Conditions) → IsOwned s → IsOwned (add_precondition n s)
unfolding add_precondition
add_precondition-IsOwned n s o = record {
  made_pre = added_below s.preconditions s.made n o.made_pre;
  made_post = λ c k h. omega (arith, o.made_post c k h);
  one_waits = added_once s.preconditions s.made n o.made_pre o.one_waits;
  one_sets = o.one_sets;
}

pub add_postcondition-IsOwned :
    (n : ℕ) (s : Conditions) → IsOwned s → IsOwned (add_postcondition n s)
unfolding add_postcondition
add_postcondition-IsOwned n s o = record {
  made_pre = λ c k h. omega (arith, o.made_pre c k h);
  made_post = added_below s.postconditions s.made n o.made_post;
  one_waits = o.one_waits;
  one_sets = added_once s.postconditions s.made n o.made_post o.one_sets;
}

pub add_both-IsOwned : (n m : ℕ) (s : Conditions) → IsOwned s → IsOwned (add_both n m s)
unfolding add_both
add_both-IsOwned n m s o = record {
  made_pre = added_below s.preconditions s.made n o.made_pre;
  made_post = added_below s.postconditions s.made m o.made_post;
  one_waits = added_once s.preconditions s.made n o.made_pre o.one_waits;
  one_sets = added_once s.postconditions s.made m o.made_post o.one_sets;
}

pub no_conditions-IsOwned : IsOwned no_conditions
unfolding contains
no_conditions-IsOwned = record {
  made_pre = λ c k h. absurd (cc h);
  made_post = λ c k h. absurd (cc h);
  one_waits = λ c k k' h h'. absurd (cc h);
  one_sets = λ c k k' h h'. absurd (cc h);
}
