-- ===== src/Plugins/CleanUp.antt =====
-- What the loop of ensureDataSource in plugins/notify-bitflow-controller deletes and keeps.
use mathlib.Core.Path.{subst}
use go_bitflow_collector.Prelude.{
  ◌≡◌, refl, sym, ap, ◌∙◌, ◌⊎◌, inl, inr, Bool, true, false, List, [], ◌∷◌, ◌&&◌, if◌then◌else◌,
  arith, Bool-cases,
}
use go_bitflow_collector.Pcap.{Text, eq_text}
use go_bitflow_collector.Psutil.Tables.{eq_text_self, eq_text_sym}
use go_bitflow_collector.Plugins.Cluster.{
  IsCluster, named, AreStored, AreIn, has_our_labels, AreSettled,
}
use go_bitflow_collector.Plugins.Notifier.{
  BitflowSource, Client, DeleteResult, delete_source, clean_one, clean_up,
}

module _ {S : Type 0} (client : Client S) (namespace : Text) (has : Text → S → Bool)
    (cluster : IsCluster client namespace has) (equal_spec : BitflowSource → BitflowSource → Bool)
    (deletes : (name : Text) (t : S)
      → ¬ ((client.delete namespace name t).1 ≡ DeleteResult.delete_error)) where
  delete_has :
      (x : BitflowSource) (k : Text) (s : S)
      → x.namespace ≡ namespace
      → has k (client.delete x.namespace x.name s).0 ≡ (if eq_text x.name k then false else has k s)
  delete_has x k s inside =
      ap (λ (n : Text). has k (client.delete n x.name s).0) inside
      ∙ cluster.delete_law x.name k s (deletes x.name s)

  -- What one round does to a name.
  has-clean_one :
      (source x : BitflowSource) (name k : Text) (s : S)
      → x.namespace ≡ namespace
      → eq_text x.name k ≡ false
      → has k (clean_one client equal_spec source x (name, s)).1 ≡ has k s
  unfolding clean_one delete_source
  has-clean_one source x name k s inside other = ground (arith, other, delete_has x k s inside)

  has-clean_up :
      (source : BitflowSource) (list : List BitflowSource) (name k : Text) (s : S)
      → AreIn namespace list
      → named k list ≡ false
      → has k (clean_up client equal_spec source list (name, s)).1 ≡ has k s
  unfolding clean_up named
  has-clean_up source [] name k s inside h = refl
  has-clean_up source (x ∷ list) name k s (i, inside) h =
      let next = clean_one client equal_spec source x (name, s) in
      has-clean_up source list next.0 k next.1 inside (ground (arith, h))
      ∙ has-clean_one source x name k s i (ground (arith, h))

  -- No name is new.
  missing-clean_one :
      (source x : BitflowSource) (name k : Text) (s : S)
      → x.namespace ≡ namespace
      → has k s ≡ false
      → has k (clean_one client equal_spec source x (name, s)).1 ≡ false
  unfolding clean_one delete_source
  missing-clean_one source x name k s inside h = ground (arith, h, delete_has x k s inside)

  pub missing-clean_up :
      (source : BitflowSource) (list : List BitflowSource) (name k : Text) (s : S)
      → AreIn namespace list
      → has k s ≡ false
      → has k (clean_up client equal_spec source list (name, s)).1 ≡ false
  unfolding clean_up
  missing-clean_up source [] name k s inside h = h
  missing-clean_up source (x ∷ list) name k s (i, inside) h =
      let next = clean_one client equal_spec source x (name, s) in
      missing-clean_up source list next.0 k next.1 inside (missing-clean_one source x name k s i h)

  abbrev one : BitflowSource → BitflowSource → Text × S → Text × S
  one = clean_one client equal_spec

  abbrev pub rounds : BitflowSource → List BitflowSource → Text × S → Text × S
  rounds = clean_up client equal_spec

  one_foreign :
      (source x : BitflowSource) (name : Text) (s : S)
      → has_our_labels source x ≡ false
      → one source x (name, s) ≡ (name, s)
  unfolding clean_one
  one_foreign source x name s h = ground (arith, h)

  one_kept :
      (source x : BitflowSource) (name : Text) (s : S)
      → has_our_labels source x ≡ true
      → (equal_spec source x && eq_text name []) ≡ true
      → one source x (name, s) ≡ (x.name, s)
  unfolding clean_one
  one_kept source x name s h k = ground (arith, h, k)

  one_deleted :
      (source x : BitflowSource) (name : Text) (s : S)
      → has_our_labels source x ≡ true
      → (equal_spec source x && eq_text name []) ≡ false
      → one source x (name, s) ≡ (name, (client.delete x.namespace x.name s).0)
  unfolding clean_one delete_source
  one_deleted source x name s h k = ground (arith, h, k)

  keep_name :
      (source : BitflowSource) (list : List BitflowSource) (name : Text) (s : S)
      → eq_text name [] ≡ false
      → (rounds source list (name, s)).0 ≡ name
  unfolding clean_up clean_one
  keep_name source [] name s h = refl
  keep_name source (x ∷ list) name s h =
      let next = one source x (name, s) in
      let same : next.0 ≡ name = ground (arith, h) in
      keep_name source list next.0 next.1 (ap (λ (t : Text). eq_text t []) same ∙ h) ∙ same

  AreStored-same :
      (j : Text) (s s' : S) (list : List BitflowSource)
      → ((k : Text) → eq_text j k ≡ false → has k s' ≡ has k s)
      → named j list ≡ false
      → AreStored has s list
      → AreStored has s' list
  unfolding named
  AreStored-same j s s' [] same h stored = tt
  AreStored-same j s s' (x ∷ list) same h (here, filled, apart, rest) = (
    same x.name (eq_text_sym j x.name ∙ ground (arith, h)) ∙ here,
    filled,
    apart,
    AreStored-same j s s' list same (ground (arith, h)) rest,
  )

  -- The name so far: none yet, or one that is in the cluster and not in the rest of the list.
  abbrev pub IsFound : Text → S → List BitflowSource → Type 0
  IsFound name s list = (eq_text name [] ≡ true) ⊎ ((has name s ≡ true) × (named name list ≡ false))

  IsFound-tail :
      (x : BitflowSource) (name : Text) (s : S) (list : List BitflowSource)
      → IsFound name s (x ∷ list)
      → IsFound name s list
  unfolding named
  IsFound-tail x name s list (inl e) = inl e
  IsFound-tail x name s list (inr (e, n)) = inr (e, ground (arith, n))

  -- The other objects do not see that `x` is deleted.
  delete_apart :
      (x : BitflowSource) (k : Text) (s : S)
      → x.namespace ≡ namespace
      → eq_text x.name k ≡ false
      → has k (client.delete x.namespace x.name s).0 ≡ has k s
  delete_apart x k s inside other = ground (arith, other, delete_has x k s inside)

  IsFound-deleted :
      (x : BitflowSource) (name : Text) (s : S) (list : List BitflowSource)
      → x.namespace ≡ namespace
      → IsFound name s (x ∷ list)
      → IsFound name (client.delete x.namespace x.name s).0 list
  unfolding named
  IsFound-deleted x name s list inside (inl e) = inl e
  IsFound-deleted x name s list inside (inr (e, n)) =
      inr (delete_apart x name s inside (ground (arith, n)) ∙ e, ground (arith, n))

  -- What the rounds over a list make of a state, of the objects of another list.
  abbrev pub Outcome : BitflowSource → List BitflowSource → List BitflowSource → Text × S → Type 0
  Outcome source all list state =
      AreSettled has source (rounds source list state).0 (rounds source list state).1 all
      × ((eq_text (rounds source list state).0 [] ≡ true)
          ⊎ (has (rounds source list state).0 (rounds source list state).1 ≡ true))

  pub clean_up-AreSettled :
      (source : BitflowSource) (list : List BitflowSource) (name : Text) (s : S)
      → AreIn namespace list
      → AreStored has s list
      → IsFound name s list
      → Outcome source list list (name, s)
  unfolding clean_up
  clean_up-AreSettled source [] name s inside stored found =
      (tt, elim found [ inl e ↦ inl e | inr (e, n) ↦ inr e ])
  clean_up-AreSettled source (x ∷ list) name s (i, inside) (here, filled, apart, rest) found =
      elim (Bool-cases (has_our_labels source x)) [
        | inr foreign ↦
            subst (Outcome source (x ∷ list) list) (sym (one_foreign source x name s foreign)) (
              let (settled, last) =
                clean_up-AreSettled source list name s inside rest
                  (IsFound-tail x name s list found) in
              (
                (
                  λ e. absurd (cc (e, foreign)),
                  λ e. has-clean_up source list name x.name s inside apart ∙ here,
                  settled,
                ),
                last,
              ))
        | inl ours ↦ elim (Bool-cases (equal_spec source x && eq_text name [])) [
          | inl kept ↦
              subst (Outcome source (x ∷ list) list) (sym (one_kept source x name s ours kept)) (
                let (settled, last) =
                  clean_up-AreSettled source list x.name s inside rest (inr (here, apart)) in
                (
                  (
                    λ e there. sym (keep_name source list x.name s filled),
                    λ e. absurd (cc (e, ours)),
                    settled,
                  ),
                  last,
                ))
          | inr gone ↦
              subst (Outcome source (x ∷ list) list) (sym (one_deleted source x name s ours gone)) (
                let s1 = (client.delete x.namespace x.name s).0 in
                let (settled, last) =
                  clean_up-AreSettled source list name s1 inside
                    (AreStored-same x.name s s1 list (λ k. delete_apart x k s i) apart rest)
                    (IsFound-deleted x name s list i found) in
                let missing : has x.name s1 ≡ false =
                  ground (arith, delete_has x x.name s i, eq_text_self x.name) in
                (
                  (
                    λ e there.
                        absurd (
                          cc
                            (there, has-clean_up source list name x.name s1 inside apart, missing)),
                    λ e. absurd (cc (e, ours)),
                    settled,
                  ),
                  last,
                ))
        ]
      ]
