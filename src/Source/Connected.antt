-- ===== src/Source/Connected.antt =====
-- The conditions that loopUpdate makes for the dependencies of the nodes.
use mathlib.Core.Path.{subst}
use native.Mathlib.Decide.{ℕ_discrete}
use go_bitflow_collector.Prelude.{
  ℕ, zero, suc, ◌+◌, ◌≡◌, refl, ◌∙◌, sym, ap, true, false, some, List, [], ◌∷◌, length, get_elem?,
  contains, lookup, arith, length-append, ◌≢◌,
}
use go_bitflow_collector.Graph.{Collectors, CollectorGraph, resolve}
use go_bitflow_collector.Source.Conditions.{Conditions, add_both, connect, connect_all}
use go_bitflow_collector.Source.Owned.{
  IsOwned, Grows, Grows-refl, Grows-trans, get_elem?-append_last, add_both-Grows, add_both-IsOwned,
}
use go_bitflow_collector.Source.Endpoints.{AreDistinct, contains_last}

-- The `i`-th precondition of `n` is a postcondition of `m`.
abbrev pub IsLinked : Conditions → ℕ → ℕ → ℕ → Type 0
IsLinked s n i m =
    (c : ℕ) × (get_elem? (s.preconditions n) i ≡ some c) × (contains c (s.postconditions m) ≡ true)

IsLinked-Grows : {s s' : Conditions} (n i m : ℕ) → Grows s s' → IsLinked s n i m → IsLinked s' n i m
IsLinked-Grows n i m g (c, e, h) = (c, g.kept n i c e, g.kept_post m c h)

-- What the loop over the dependencies `ds` of `n` does.
record Connected (g : CollectorGraph) (n : ℕ) (ds : List ℕ) (s s' : Conditions) : Type 0 where
  pub owned : IsOwned s → IsOwned s'
  pub grows : Grows s s'
  pub other : (k : ℕ) → k ≢ n → s'.preconditions k ≡ s.preconditions k
  pub count : length (s'.preconditions n) ≡ length (s.preconditions n) + length ds
  pub linked :
      (i d m : ℕ)
      → get_elem? ds i ≡ some d
      → lookup d g.collectors ≡ some m
      → IsLinked s' n (length (s.preconditions n) + i) m

abbrev pub AllResolve : CollectorGraph → List ℕ → Type 0
AllResolve g ds = (d : ℕ) → contains d ds ≡ true → (m : ℕ) × (lookup d g.collectors ≡ some m)

length-add_both :
    (n m : ℕ) (s : Conditions)
    → length ((add_both n m s).preconditions n) ≡ suc (length (s.preconditions n))
unfolding add_both
length-add_both n m s = ground (arith, length-append (s.preconditions n) (s.made ∷ []))

add_both-IsLinked :
    (n m : ℕ) (s : Conditions) → IsLinked (add_both n m s) n (length (s.preconditions n)) m
unfolding add_both
add_both-IsLinked n m s = (
  s.made,
  ground (arith, get_elem?-append_last (s.preconditions n) s.made),
  ground (arith, contains_last s.made (s.postconditions m)),
)

IsLinked-next :
    (g : CollectorGraph) (n d m : ℕ) (ds : List ℕ) (s s' : Conditions)
    → lookup d g.collectors ≡ some m
    → Connected g n ds (add_both n m s) s'
    → (i d' m' : ℕ) → get_elem? (d ∷ ds) i ≡ some d'
    → lookup d' g.collectors ≡ some m'
    → IsLinked s' n (length (s.preconditions n) + i) m'
IsLinked-next g n d m ds s s' found r zero d' m' at found' =
    let same : d ≡ d' = cc at in
    let target : m ≡ m' = cc (found, found', same) in
    subst (λ j. IsLinked s' n j m') (omega arith)
      (IsLinked-Grows n (length (s.preconditions n)) m' r.grows (
        subst (IsLinked (add_both n m s) n (length (s.preconditions n))) target
          (add_both-IsLinked n m s)))
IsLinked-next g n d m ds s s' found r (suc i) d' m' at found' =
    subst (λ j. IsLinked s' n j m') (omega (arith, length-add_both n m s))
      (r.linked i d' m' at found')

Connected-next :
    (g : CollectorGraph) (n d m : ℕ) (ds : List ℕ) (s s' : Conditions)
    → lookup d g.collectors ≡ some m
    → Connected g n ds (add_both n m s) s'
    → Connected g n (d ∷ ds) s s'
unfolding add_both
Connected-next g n d m ds s s' found r = record {
  owned = λ o. r.owned (add_both-IsOwned n m s o);
  grows = Grows-trans (add_both-Grows n m s) r.grows;
  other = λ k c. r.other k c ∙ ground (arith, c);
  count = omega (arith, r.count, length-add_both n m s);
  linked = IsLinked-next g n d m ds s s' found r;
}

connect-Connected :
    (g : CollectorGraph) (n : ℕ) (ds : List ℕ) (s : Conditions)
    → AllResolve g ds
    → (s' : Conditions) × (connect g n ds s ≡ some s') × Connected g n ds s s'
unfolding connect contains resolve
connect-Connected g n [] s h = (
  s,
  refl,
  record {
    owned = λ o. o;
    grows = Grows-refl s;
    other = λ k c. refl;
    count = omega arith;
    linked = λ i d m e. absurd (cc e);
  },
)
connect-Connected g n (d ∷ ds) s h =
    let (m, found) = h d (ground arith) in
    let (s', e, r) = connect-Connected g n ds (add_both n m s) (λ d' c. h d' (ground (arith, c))) in
    (s', ground (arith, found, e), Connected-next g n d m ds s s' found r)

module _ (env : Collectors) where
  abbrev pub dependencies : CollectorGraph → ℕ → List ℕ
  dependencies g n = env.depends (g.heap n).collector

  -- What loopUpdate of the nodes `ns` does.
  pub record AllConnected (g : CollectorGraph) (ns : List ℕ) (s s' : Conditions) : Type 0 where
    pub owned : IsOwned s → IsOwned s'
    pub grows : Grows s s'
    pub other : (k : ℕ) → contains k ns ≡ false → s'.preconditions k ≡ s.preconditions k
    pub count :
        (n : ℕ)
        → contains n ns ≡ true
        → length (s'.preconditions n) ≡ length (s.preconditions n) + length (dependencies g n)
    pub linked :
        (n i d m : ℕ)
        → contains n ns ≡ true
        → get_elem? (dependencies g n) i ≡ some d
        → lookup d g.collectors ≡ some m
        → IsLinked s' n (length (s.preconditions n) + i) m

  AllConnected-next :
      (g : CollectorGraph) (n : ℕ) (ns : List ℕ) (s s1 s' : Conditions)
      → contains n ns ≡ false
      → Connected g n (dependencies g n) s s1
      → AllConnected g ns s1 s'
      → AllConnected g (n ∷ ns) s s'
  unfolding contains
  AllConnected-next g n ns s s1 s' fresh r rs = record {
    owned = λ o. rs.owned (r.owned o);
    grows = Grows-trans r.grows rs.grows;
    other = λ k c. rs.other k (ground (arith, c)) ∙ r.other k (λ e. ground (arith, e, c));
    count = λ k c. elim (ℕ_discrete n k) [
      | yes same ↦
          subst
            (λ j.
              length (s'.preconditions j) ≡ length (s.preconditions j) + length (dependencies g j))
            same (ap length (rs.other n fresh) ∙ r.count)
      | no other ↦
          rs.count k (ground (arith, c))
          ∙ ap (λ (p : List ℕ). length p + length (dependencies g k))
              (r.other k (λ e. other (sym e)))
    ];
    linked = λ k i d m c at found. elim (ℕ_discrete n k) [
      | yes same ↦
          subst (λ j. IsLinked s' j (length (s.preconditions j) + i) m) same
            (IsLinked-Grows n (length (s.preconditions n) + i) m rs.grows
              (r.linked i d m (ap (λ (j : ℕ). get_elem? (dependencies g j) i) same ∙ at) found))
      | no other ↦
          subst (λ (p : List ℕ). IsLinked s' k (length p + i) m) (r.other k (λ e. other (sym e)))
            (rs.linked k i d m (ground (arith, c)) at found)
    ];
  }

  pub connect_all-AllConnected :
      (g : CollectorGraph) (ns : List ℕ) (s : Conditions)
      → AreDistinct ns
      → ((n : ℕ) → contains n ns ≡ true → AllResolve g (dependencies g n))
      → (s' : Conditions) × (connect_all env g ns s ≡ some s') × AllConnected g ns s s'
  unfolding connect_all contains
  connect_all-AllConnected g [] s distinct h = (
    s,
    refl,
    record {
      owned = λ o. o;
      grows = Grows-refl s;
      other = λ k c. refl;
      count = λ n c. absurd (cc c);
      linked = λ n i d m c. absurd (cc c);
    },
  )
  connect_all-AllConnected g (n ∷ ns) s (fresh, distinct) h =
      let (s1, e, r) = connect-Connected g n (dependencies g n) s (h n (ground arith)) in
      let (s', e', rs) =
        connect_all-AllConnected g ns s1 distinct (λ k c. h k (ground (arith, c))) in
      (s', ground (arith, e, e'), AllConnected-next g n ns s s1 s' fresh r rs)
