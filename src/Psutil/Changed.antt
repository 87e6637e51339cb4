-- ===== src/Psutil/Changed.antt =====
-- When the updates of psutil/disk.go and psutil/net_proto.go say that the metrics have changed.
use go_bitflow_collector.Prelude.{
  true, ◌≡◌, refl, sym, ap, ◌∙◌, ◌↔◌, some, [], ◌∷◌, ◌==◌, length, arith, Bool-cases, inl, inr,
}
use go_bitflow_collector.Pcap.{Text, eq_text}
use go_bitflow_collector.Logback.{FloatOps}
use go_bitflow_collector.Psutil.NetProto.{Protocols, take_over, update_protocols}
use go_bitflow_collector.Psutil.{store, no_error, metrics_changed, has_name}
use go_bitflow_collector.Psutil.Tables.{eq_text_self, eq_text_eq, has_name-store}
use go_bitflow_collector.Psutil.Disk.{Disks, all_there, update}

-- Every disk of the first table is in the second.
abbrev pub IsCovered : Disks → Disks → Type 0
IsCovered old disks = (name : Text) → has_name name old ≡ true → has_name name disks ≡ true

all_there_iff : (old disks : Disks) → (all_there old disks ≡ true) ↔ IsCovered old disks
unfolding all_there has_name
all_there_iff [] disks = (λ e name h. absurd (cc h), λ h. refl)
all_there_iff ((k, stat) ∷ old) disks =
    let rest = all_there_iff old disks in
    elim (Bool-cases (has_name k disks)) [
      | inl there ↦ (
        λ e name h. elim (Bool-cases (eq_text k name)) [
          | inl same ↦ ap (λ (t : Text). has_name t disks) (sym (eq_text_eq k name same)) ∙ there
          | inr other ↦ rest.0 (ground (arith, there, e)) name (ground (arith, other, h))
        ],
        λ covered.
            let tail = rest.1 (λ name h. covered name (ground (arith, h))) in
            ground (arith, there, tail),
      )
      | inr gone ↦ (
        λ e. absurd (ground (arith, gone, e)),
        λ covered. absurd (cc (gone, covered k (ground (arith, eq_text_self k)))),
      )
    ]

-- An update of the disks that checks for changes takes over the disks that were read, without an
-- error, exactly if every disk of the table is among them and there are as many; exactly if not,
-- it says that the metrics have changed and keeps the table.
pub update-changed :
    (old disks : Disks)
    → ((update true (some disks) old ≡ (disks, no_error))
        ↔ (IsCovered old disks × (length old ≡ length disks)))
      × ((update true (some disks) old ≡ (old, metrics_changed))
          ↔ (¬ (IsCovered old disks × (length old ≡ length disks))))
unfolding update
update-changed old disks =
    let iff = all_there_iff old disks in
    elim (Bool-cases (all_there old disks)) [
      | inl there ↦ elim (Bool-cases (length old == length disks)) [
        | inl same ↦ (
          (λ e. (iff.0 there, ground (arith, same)), λ (covered, n). ground (arith, there, same)),
          (
            λ e. absurd (ground (arith, there, same, e)),
            λ differs. absurd (differs (iff.0 there, ground (arith, same))),
          ),
        )
        | inr other ↦ (
          (
            λ e. absurd (ground (arith, there, other, e)),
            λ (covered, n). absurd (ground (arith, other, n)),
          ),
          (λ e (covered, n). ground (arith, other, n), λ differs. ground (arith, there, other)),
        )
      ]
      | inr gone ↦ (
        (
          λ e. absurd (ground (arith, gone, e)),
          λ (covered, n). absurd (ground (arith, gone, iff.1 covered)),
        ),
        (λ e (covered, n). ground (arith, gone, iff.1 covered), λ differs. ground (arith, gone)),
      )
    ]

module _ (f : FloatOps) where
  names-take_over :
      (counters protocols : Protocols f) (name : Text)
      → (take_over f true counters protocols).1 ≡ true
      → has_name name (take_over f true counters protocols).0 ≡ has_name name protocols
  unfolding take_over
  names-take_over [] protocols name h = refl
  names-take_over ((protocol, stats) ∷ counters) protocols name h =
      elim (Bool-cases (has_name protocol protocols)) [
        | inr new ↦ absurd (ground (arith, new, h))
        | inl known ↦
            let stored = store protocol stats protocols in
            let h' : (take_over f true counters stored).1 ≡ true = ground (arith, known, h) in
            let rest = names-take_over counters stored name h' in
            let kept : has_name name stored ≡ has_name name protocols =
              elim (Bool-cases (eq_text protocol name)) [
                | inl same ↦
                    let there : has_name name protocols ≡ true =
                      ap (λ (t : Text). has_name t protocols) (sym (eq_text_eq protocol name same))
                      ∙ known in
                    has_name-store name protocol stats protocols ∙ ground (arith, same, there)
                | inr other ↦ has_name-store name protocol stats protocols ∙ ground (arith, other)
              ] in
            ground (arith, known, rest, kept)
      ]

  -- An update of the network protocols that checks for changes and returns no error leaves exactly
  -- the names of protocols that the table had, and as many as were read.
  pub update_protocols-same_names :
      (counters protocols protocols' : Protocols f)
      → update_protocols f true (some counters) protocols ≡ (protocols', no_error)
      → ((name : Text) → has_name name protocols' ≡ has_name name protocols)
        × (length counters ≡ length protocols')
  unfolding update_protocols
  update_protocols-same_names counters protocols protocols' e =
      let run = take_over f true counters protocols in
      elim (Bool-cases run.1) [
        | inr unknown ↦ absurd (ground (arith, unknown, e))
        | inl all_known ↦ elim (Bool-cases (length counters == length run.0)) [
          | inr other ↦ absurd (ground (arith, all_known, other, e))
          | inl same ↦
              let result : run.0 ≡ protocols' = ground (arith, all_known, same, e) in
              let sizes : length counters ≡ length run.0 = ground (arith, same) in
              (
                λ name.
                    ap (has_name name) (sym result)
                    ∙ names-take_over counters protocols name all_known,
                sizes ∙ ap (λ (t : Protocols f). length t) result,
              )
        ]
      ]
