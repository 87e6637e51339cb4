-- ===== src/Plugins/Cluster.antt =====
-- What the Kubernetes client of plugins/notify-bitflow-controller does to the names of the objects
-- in a cluster, and how a list of objects stands in it.
use go_bitflow_collector.Prelude.{
  ◌≡◌, Bool, true, false, List, [], ◌∷◌, if◌then◌else◌, ◌==◌, ◌||◌, ◌&&◌, length,
}
use go_bitflow_collector.Pcap.{Text, eq_text}
use go_bitflow_collector.Plugins.Notifier.{BitflowSource, Client, DeleteResult}

unfoldable pub named : Text → List BitflowSource → Bool
named k [] = false
named k (x ∷ list) = eq_text x.name k || named k list

abbrev pub has_our_labels : BitflowSource → BitflowSource → Bool
has_our_labels source x = length x.labels == length source.labels

module _ {S : Type 0} (has : Text → S → Bool) where
  -- All objects of the list are in the cluster, under names that differ and are not empty.
  abbrev pub AreStored : S → List BitflowSource → Type 0
  AreStored s [] = Unit {0}
  AreStored s (x ∷ list) =
      (has x.name s ≡ true)
      × (eq_text x.name [] ≡ false)
      × (named x.name list ≡ false)
      × AreStored s list

  -- Of the objects with our labels only the one with the name is left, and the others stay as they
  -- are.
  abbrev pub AreSettled : BitflowSource → Text → S → List BitflowSource → Type 0
  AreSettled source name s [] = Unit {0}
  AreSettled source name s (x ∷ list) =
      (has_our_labels source x ≡ true → has x.name s ≡ true → x.name ≡ name)
      × (has_our_labels source x ≡ false → has x.name s ≡ true)
      × AreSettled source name s list

-- All objects of the list are in the namespace.
abbrev pub AreIn : Text → List BitflowSource → Type 0
AreIn namespace [] = Unit {0}
AreIn namespace (x ∷ list) = (x.namespace ≡ namespace) × AreIn namespace list

-- Whether an object of the list has the name of ours and as many labels.
unfoldable pub has_ours : BitflowSource → List BitflowSource → Bool
has_ours source [] = false
has_ours source (x ∷ list) =
    (has_our_labels source x && eq_text x.name source.name) || has_ours source list

-- What the client's operations do to the names in a namespace, for objects without finalizers: Delete without an error takes away
-- the object with the name and no other; Create without an error adds the object and no other, and
-- it fails with AlreadyExists if there is an object with its name.
pub record IsCluster {S : Type 0} (client : Client S) (namespace : Text) (has : Text → S → Bool)
    : Type 0 where
  pub delete_law :
      (name k : Text) (s : S)
      → ¬ ((client.delete namespace name s).1 ≡ DeleteResult.delete_error)
      → has k (client.delete namespace name s).0 ≡ (if eq_text name k then false else has k s)
  pub create_law :
      (source : BitflowSource) (k : Text) (s : S)
      → source.namespace ≡ namespace
      → (client.create source s).1 ≡ true
      → has k (client.create source s).0 ≡ (if eq_text source.name k then true else has k s)
  pub exists_law :
      (source : BitflowSource) (s : S)
      → source.namespace ≡ namespace
      → has source.name s ≡ true
      → (client.create source s).1 ≡ false
