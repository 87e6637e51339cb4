-- ===== src/Plugins/Sources.antt =====
-- Which data sources ensureDataSource of plugins/notify-bitflow-controller leaves in the cluster.
use mathlib.Core.Path.{subst}
use go_bitflow_collector.Prelude.{
  ◌≡◌, sym, ap, ◌∙◌, inl, inr, Bool, true, false, some, List, [], ◌∷◌, ◌&&◌, arith, Bool-cases,
}
use go_bitflow_collector.Pcap.{Text, eq_text}
use go_bitflow_collector.Psutil.Tables.{eq_text_self, eq_text_eq}
use go_bitflow_collector.Plugins.Cluster.{
  IsCluster, AreStored, AreIn, has_ours, has_our_labels, AreSettled,
}
use go_bitflow_collector.Plugins.Notifier.{
  BitflowSource, Client, DeleteResult, create_missing, ensure_data_source,
}
use go_bitflow_collector.Plugins.CleanUp.{rounds, missing-clean_up, clean_up-AreSettled}

module _ {S : Type 0} (client : Client S) (namespace : Text) (has : Text → S → Bool)
    (cluster : IsCluster client namespace has) (equal_spec : BitflowSource → BitflowSource → Bool)
    (deletes : (name : Text) (t : S)
      → ¬ ((client.delete namespace name t).1 ≡ DeleteResult.delete_error)) where
  AreSettled-created :
      (source : BitflowSource) (s t : S) (list : List BitflowSource)
      → source.namespace ≡ namespace
      → (client.create source t).1 ≡ true
      → AreStored has s list
      → AreSettled has source [] t list
      → AreSettled has source source.name (client.create source t).0 list
  AreSettled-created source s t [] inside made stored settled = tt
  AreSettled-created source s t (x ∷ list) inside made (here, filled, apart, rest)
        (ours, foreign, more) =
      let law = cluster.create_law source x.name t inside made in
      (
        λ e there. elim (Bool-cases (eq_text source.name x.name)) [
          | inl same ↦ sym (eq_text_eq source.name x.name same)
          | inr other ↦
              let empty : x.name ≡ [] = ours e (ground (arith, law, other, there)) in
              absurd (cc (filled, ap (λ (k : Text). eq_text k []) empty, eq_text_self []))
        ],
        λ e. ground (arith, law, foreign e),
        AreSettled-created source s t list inside made rest more,
      )

  -- Our name is free once no object with our labels is left.
  settled-free :
      (source : BitflowSource) (s t : S) (list : List BitflowSource)
      → AreStored has s list
      → AreSettled has source [] t list
      → has_ours source list ≡ true
      → has source.name t ≡ false
  unfolding has_ours
  settled-free source s t [] stored settled h = absurd (cc h)
  settled-free source s t (x ∷ list) (here, filled, apart, rest) (ours, foreign, more) h =
      elim (Bool-cases (has_our_labels source x && eq_text x.name source.name)) [
        | inr other ↦ settled-free source s t list rest more (ground (arith, h, other))
        | inl same ↦
            let equal : x.name ≡ source.name =
              eq_text_eq x.name source.name (ground (arith, same)) in
            elim (Bool-cases (has source.name t)) [
              | inr free ↦ free
              | inl there ↦
                  let empty : x.name ≡ [] =
                    ours (ground (arith, same)) (ap (λ (k : Text). has k t) equal ∙ there) in
                  absurd (cc (filled, ap (λ (k : Text). eq_text k []) empty, eq_text_self []))
            ]
      ]

  created_free :
      (source : BitflowSource) (s : S) (list : List BitflowSource)
      → AreIn namespace list
      → AreStored has s list
      → AreSettled has source []
          (rounds client namespace has cluster equal_spec deletes source list ([], s)).1
          list
      → (has source.name s ≡ true → has_ours source list ≡ true)
      → has source.name
          (rounds client namespace has cluster equal_spec deletes source list ([], s)).1
        ≡ false
  created_free source s list inside stored settled ours = elim (Bool-cases (has source.name s)) [
    | inl there ↦
        settled-free source s
          (rounds client namespace has cluster equal_spec deletes source list ([], s)).1 list stored
          settled (ours there)
    | inr free ↦
        missing-clean_up client namespace has cluster equal_spec deletes source list [] source.name
          s inside free
  ]

  -- In one namespace of a cluster, where no deletion fails, our object is created without an error
  -- if there is none with its name, the objects listed are in the namespace under names that differ
  -- and are not empty, and an object that has our name at first is listed and has as many labels as
  -- ours: ensureDataSource returns a name without an error, an object with that name is in the
  -- cluster, of the listed objects with as many labels as ours none is left but under that name,
  -- and all other listed objects are left.
  pub ensure_data_source_correct :
      (source : BitflowSource) (s : S) (list : List BitflowSource)
      → source.namespace ≡ namespace
      → eq_text source.name [] ≡ false
      → client.list namespace source.labels s ≡ some list
      → ((t : S) → has source.name t ≡ false → (client.create source t).1 ≡ true)
      → (has source.name s ≡ true → has_ours source list ≡ true)
      → AreIn namespace list
      → AreStored has s list
      → (name : Text) × (s' : S) × (ensure_data_source client equal_spec namespace source s
          ≡ (some name, s'))
        × (has name s' ≡ true)
        × AreSettled has source name s' list
  unfolding ensure_data_source create_missing
  ensure_data_source_correct source s list own filled listed creates ours inside stored =
      let (settled, last) =
        clean_up-AreSettled client namespace has cluster equal_spec deletes source list [] s inside
          stored (inl (eq_text_self [])) in
      let state = rounds client namespace has cluster equal_spec deletes source list ([], s) in
      elim (Bool-cases (eq_text state.0 [])) [
        | inr found ↦ (
          state.0,
          state.1,
          ground (arith, listed, found),
          elim last [ inl e ↦ absurd (cc (e, found)) | inr there ↦ there ],
          settled,
        )
        | inl missing ↦
            let none_left : AreSettled has source [] state.1 list =
              subst (λ (name : Text). AreSettled has source name state.1 list)
                (eq_text_eq state.0 [] missing) settled in
            let made = creates state.1 (created_free source s list inside stored none_left ours) in
            (
              source.name,
              (client.create source state.1).0,
              ground (arith, listed, missing, made),
              ground (
                arith,
                cluster.create_law source source.name state.1 own made,
                eq_text_self source.name,
              ),
              AreSettled-created source s state.1 list own made stored none_left,
            )
      ]
