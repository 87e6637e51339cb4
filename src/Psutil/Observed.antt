-- ===== src/Psutil/Observed.antt =====
-- Which processes addChildren of psutil/process.go adds.
use mathlib.Core.Path.{subst}
use go_bitflow_collector.Prelude.{
  ap, ℕ, zero, suc, ◌<◌, ◌≡◌, refl, ◌≢◌, ◌↔◌, ◌⊎◌, inl, inr, ◌∙◌, sym, Bool, true, some, List, [],
  ◌∷◌, if◌then◌else◌, ◌==◌, contains, put, lookup-put, arith, Bool-cases,
}
use go_bitflow_collector.Psutil.Process.{Os, Procs, get_proc_info, has_pid, add_child, add_children}

module _ {Info : Type 0} (own_pid : ℕ) (new_info : ℕ → Info) (os : Os) where
  -- `p` is the process `c`, or a child of one that descends from it.
  pub data Descends (p : ℕ) : ℕ → Type 0 where
    itself : {c : ℕ} → c ≡ p → Descends p c
    child_of : {c : ℕ} (d : ℕ) → contains d (os.children c) ≡ true → Descends p d → Descends p c

  abbrev pub DescendsFrom : ℕ → List ℕ → Type 0
  DescendsFrom p list = (c : ℕ) × (contains c list ≡ true) × Descends p c

  abbrev P : Type 0
  P = Procs own_pid new_info os

  abbrev has : ℕ → P → Bool
  has pid procs = has_pid own_pid new_info os pid procs

  has_pid-put :
      (c p : ℕ) (info : Info) (procs : P)
      → has p (put c info procs) ≡ (if c == p then true else has p procs)
  unfolding has_pid
  has_pid-put c p info procs = ground (arith, lookup-put p c info procs)

  add_child_iff :
      (procs new_procs : P) (c p : ℕ)
      → (has p (add_child own_pid new_info os procs c new_procs) ≡ true)
        ↔ ((has p new_procs ≡ true) ⊎ ((p ≢ own_pid) × (c ≡ p)))
  unfolding add_child
  add_child_iff procs new_procs c p = elim (Bool-cases (has c new_procs)) [
    | inl old ↦ rw old (
      λ e. inl e,
      λ either. elim either [
        | inl e ↦ e
        | inr (n, same) ↦ ap (λ q. has q new_procs) (sym same) ∙ old
      ],
    )
    | inr new ↦
        let info = get_proc_info own_pid new_info os procs c in
        elim (Bool-cases (c == own_pid)) [
          | inl own ↦
              rw (new, own)
                (
                  λ e. inl e,
                  λ either. elim either [
                    | inl e ↦ e
                    | inr (n, same) ↦ absurd (n (ground (arith, own, same)))
                  ],
                )
          | inr other ↦
              rw (new, other)
                (
                  λ e. elim (Bool-cases (c == p)) [
                    | inl same ↦ inr (λ q. ground (arith, same, other, q), ground (arith, same))
                    | inr apart ↦ inl (ground (arith, e, apart, has_pid-put c p info new_procs))
                  ],
                  λ either. elim either [
                    | inl e ↦ ground (arith, e, has_pid-put c p info new_procs)
                    | inr (n, same) ↦ ground (arith, same, has_pid-put c p info new_procs)
                  ],
                )
        ]
  ]

  Descends-cases : (p c : ℕ) → Descends p c → (c ≡ p) ⊎ DescendsFrom p (os.children c)
  Descends-cases p c (itself e) = inl e
  Descends-cases p c (child_of d k below) = inr (d, k, below)

  from_list_cases :
      (p c : ℕ) (children : List ℕ)
      → DescendsFrom p (c ∷ children)
      → (c ≡ p) ⊎ (DescendsFrom p (os.children c) ⊎ DescendsFrom p children)
  unfolding contains
  from_list_cases p c children (d, k, below) = elim (Bool-cases (c == d)) [
    | inl same ↦ elim (Descends-cases p c (subst (Descends p) (ground (arith, same)) below)) [
      | inl e ↦ inl e
      | inr far ↦ inr (inl far)
    ]
    | inr apart ↦ inr (inr (d, ground (arith, k, apart), below))
  ]

  -- Where children stand below their parents in some ranking, as in a tree of processes, and the
  -- fuel exceeds the ranks, addChildren ends: it keeps the processes that are there, and adds
  -- exactly the children and all that descend from them, but for the own process.
  pub add_children_complete :
      (rank : ℕ → ℕ)
      → ((c d : ℕ) → contains d (os.children c) ≡ true → rank d < rank c)
      → (fuel : ℕ) (procs : P) (children : List ℕ) (new_procs : P)
      → ((c : ℕ) → contains c children ≡ true → rank c < fuel)
      → (out : P) × (add_children own_pid new_info os fuel procs children new_procs ≡ some out)
        × ((p : ℕ)
            → (has_pid own_pid new_info os p out ≡ true) ↔ (
                (has_pid own_pid new_info os p new_procs ≡ true)
                ⊎ ((p ≢ own_pid) × DescendsFrom p children)))
  unfolding add_children contains
  add_children_complete rank below fuel procs [] new_procs h = (
    new_procs,
    refl,
    λ p. (λ e. inl e, λ either. elim either [ inl e ↦ e | inr (n, (c, e, d)) ↦ absurd (cc e) ]),
  )
  add_children_complete rank below zero procs (c ∷ children) new_procs h =
      absurd (omega (arith, h c (ground arith)))
  add_children_complete rank below (suc fuel) procs (c ∷ children) new_procs h =
      let added = add_child own_pid new_info os procs c new_procs in
      let (out1, e1, iff1) =
        add_children_complete rank below fuel procs (os.children c) added
          (λ d k. omega (arith, below c d k, h c (ground arith))) in
      let (out, e, iff) =
        add_children_complete rank below (suc fuel) procs children out1
          (λ d k. h d (ground (arith, k))) in
      (
        out,
        rw (e1, e) refl,
        λ p. (
          λ there. elim ((iff p).0 there) [
            | inl first ↦ elim ((iff1 p).0 first) [
              | inl at_added ↦ elim ((add_child_iff procs new_procs c p).0 at_added) [
                | inl old ↦ inl old
                | inr (n, same) ↦ inr (n, (c, ground arith, itself same))
              ]
              | inr (n, (d, k, below_d)) ↦ inr (n, (c, ground arith, child_of d k below_d))
            ]
            | inr (n, (d, k, below_d)) ↦ inr (n, (d, ground (arith, k), below_d))
          ],
          λ either. elim either [
            | inl old ↦
                (iff p).1 (inl ((iff1 p).1 (inl ((add_child_iff procs new_procs c p).1 (inl old)))))
            | inr (n, far) ↦ elim (from_list_cases p c children far) [
              | inl same ↦
                  (iff p).1
                    (inl ((iff1 p).1 (inl ((add_child_iff procs new_procs c p).1 (inr (n, same))))))
              | inr (inl under) ↦ (iff p).1 (inl ((iff1 p).1 (inr (n, under))))
              | inr (inr beside) ↦ (iff p).1 (inr (n, beside))
            ]
          ],
        ),
      )
