-- ===== src/Tests/PluginTests.antt =====
-- The plugins of plugins/ at concrete inputs.
use go_bitflow_collector.Prelude.{
  ◌≡◌, refl, sym, ◌∙◌, ap, ◌↔◌, Bool, true, false, none, some, List, [], ◌∷◌, if◌then◌else◌,
  contains, pos, arith, Bool-cases, inl, inr,
}
use go_bitflow_collector.Pcap.{Text, eq_text}
use go_bitflow_collector.Pcap.Proc.{split}
use go_bitflow_collector.Psutil.Tables.{eq_text_eq, eq_text_sym}
use go_bitflow_collector.Plugins.Notifier.{BitflowSource, Client, DeleteResult, ensure_data_source}
use go_bitflow_collector.Plugins.Cluster.{IsCluster, named, AreSettled}
use go_bitflow_collector.Plugins.Sources.{ensure_data_source_correct}
use go_bitflow_collector.Plugins.VolumeTagger.{VolumeInfo, LibvirtVolumeTagger, volume_tag}
use go_bitflow_collector.Psutil
use go_bitflow_collector.Plugins.Tags.{Names, volume_tag-split}

-- A cluster that holds the objects of one namespace themselves.
drop_named : Text → List BitflowSource → List BitflowSource
drop_named name [] = []
drop_named name (x ∷ s) = if eq_text name x.name then drop_named name s else x ∷ drop_named name s

abbrev holds : Text → List BitflowSource → Bool
holds k s = named k s

abbrev cluster : Client (List BitflowSource)
cluster = record {
  list = λ namespace labels s. some s;
  delete = λ namespace name s.
      (drop_named name s, if holds name s then DeleteResult.deleted else DeleteResult.not_found);
  create = λ source s. if holds source.name s then (s, false) else (source ∷ s, true);
}

holds-drop_named :
    (name k : Text) (s : List BitflowSource)
    → holds k (drop_named name s) ≡ (if eq_text name k then false else holds k s)
unfolding drop_named named
holds-drop_named name k [] = ground arith
holds-drop_named name k (x ∷ s) =
    let rest = holds-drop_named name k s in
    elim (Bool-cases (eq_text name x.name)) [
      | inl same ↦
          let keys : eq_text x.name k ≡ eq_text name k =
            ap (λ (t : Text). eq_text t k) (sym (eq_text_eq name x.name same)) in
          ground (arith, same, keys, rest)
      | inr other ↦ elim (Bool-cases (eq_text name k)) [
        | inl found ↦
            let keys : eq_text x.name k ≡ eq_text name x.name =
              eq_text_sym x.name k
              ∙ ap (λ (t : Text). eq_text t x.name) (sym (eq_text_eq name k found)) in
            ground (arith, other, found, keys, rest)
        | inr apart ↦ ground (arith, other, apart, rest)
      ]
    ]

cluster-create :
    (source : BitflowSource) (k : Text) (s : List BitflowSource)
    → (cluster.create source s).1 ≡ true
    → holds k (cluster.create source s).0 ≡ (if eq_text source.name k then true else holds k s)
unfolding named
cluster-create source k s made = elim (Bool-cases (holds source.name s)) [
  | inl there ↦ absurd (ground (arith, there, made))
  | inr free ↦ ground (arith, free)
]

cluster-deletes :
    (name : Text) (s : List BitflowSource)
    → ¬ ((cluster.delete [] name s).1 ≡ DeleteResult.delete_error)
cluster-deletes name s e = elim (Bool-cases (holds name s)) [
  | inl there ↦ ground (arith, there, e)
  | inr free ↦ ground (arith, free, e)
]

cluster-IsCluster : IsCluster cluster [] holds
cluster-IsCluster = record {
  delete_law = λ name k s e. holds-drop_named name k s;
  create_law = λ source k s own made. cluster-create source k s made;
  exists_law = λ source s own there. ground (arith, there);
}

abbrev source_of : Text → Text → BitflowSource
source_of name url = record {
  name = name;
  namespace = [];
  labels = (b'k' ∷ [], b'v' ∷ []) ∷ [];
  owner_references = [];
  url = url;
}

-- Our object is there under another name, and an older one with another URL.
abbrev listed : List BitflowSource
listed = source_of (b'a' ∷ []) (b'x' ∷ []) ∷ source_of (b'b' ∷ []) (b'y' ∷ []) ∷ []

abbrev ours : BitflowSource
ours = source_of (b'c' ∷ []) (b'y' ∷ [])

abbrev same_url : BitflowSource → BitflowSource → Bool
same_url x y = eq_text x.url y.url

ensure_data_source_correct_example :
    (name : Text) × (s' : List BitflowSource) × (ensure_data_source cluster same_url [] ours listed
      ≡ (some name, s'))
    × (holds name s' ≡ true)
    × AreSettled holds ours name s' listed
unfolding named eq_text
ensure_data_source_correct_example =
    ensure_data_source_correct cluster [] holds cluster-IsCluster same_url cluster-deletes ours
      listed listed refl refl refl (λ t free. ground (arith, free)) (λ there. absurd (cc there))
      (refl, (refl, tt)) (refl, refl, refl, (refl, refl, refl, tt))

-- It keeps the object with our URL.
ensure_kept : (ensure_data_source cluster same_url [] ours listed).0 ≡ some (b'b' ∷ [])
unfolding ensure_data_source drop_named eq_text
ensure_kept = refl

abbrev volume : Text → VolumeInfo
volume image = record { pool = []; image = image; driver = []; user = [] }

abbrev tagger : LibvirtVolumeTagger
tagger = record {
  volume_key = [];
  libvirt_instance_key = [];
  domains = [];
  instance_to_volume_info =
      (b'm' ∷ [], volume (b'a' ∷ b'b' ∷ []) ∷ volume [] ∷ volume (b'c' ∷ []) ∷ []) ∷ [];
  update_delay = pos 0;
  last_update = pos 0;
}

abbrev volumes : List VolumeInfo
volumes = volume (b'a' ∷ b'b' ∷ []) ∷ volume [] ∷ volume (b'c' ∷ []) ∷ []

volume_tag-split_example :
    (ids : List Text) × Names volumes ids
    × ((tag : Text) → volume_tag tagger (b'm' ∷ []) ≡ some tag → split b'|' tag ≡ ids)
    × ((volume_tag tagger (b'm' ∷ []) ≡ none) ↔ (ids ≡ []))
unfolding contains Psutil.find eq_text
volume_tag-split_example =
    volume_tag-split tagger (b'm' ∷ []) volumes refl (refl, (refl, (refl, tt)))
