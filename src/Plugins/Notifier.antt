-- ===== src/Plugins/Notifier.antt =====
-- plugins/notify-bitflow-controller: the data sources that are kept in the cluster, one for each
-- value of a tag. The Kubernetes client, EqualSpec, HashName, ResolveTagTemplate and the methods
-- of net/url are parameters.
use go_bitflow_collector.Prelude.{
  Bool, true, false, Option, none, some, List, [], ◌∷◌, ◌++◌, map, if◌then◌else◌, not, ◌==◌, ◌&&◌,
  ◌||◌, length,
}
use go_bitflow_collector.Pcap.{Text, eq_text}
use go_bitflow_collector.Psutil.{find, store}

abbrev pub Labels : Type 0
Labels = List (Text × Text)

pub record OwnerReference : Type 0 where
  pub api_version : Text
  pub kind : Text
  pub name : Text
  pub uid : Text
  pub controller : Bool
  pub block_owner_deletion : Bool

-- corev1.Pod: what the plugin reads of it.
pub record Pod : Type 0 where
  pub api_version : Text
  pub kind : Text
  pub name : Text
  pub uid : Text

-- bitflowv1.BitflowSource: what the plugin sets and reads.
pub record BitflowSource : Type 0 where
  pub name : Text
  pub namespace : Text
  pub labels : Labels
  pub owner_references : List OwnerReference
  pub url : Text

pub data DeleteResult : Type 0 where
  deleted not_found delete_error : DeleteResult

-- The client, over the state of the cluster. `list` takes the namespace and the labels of the
-- selector, and `create` says whether there is no error.
pub record Client (S : Type 0) : Type 0 where
  pub list : Text → Labels → S → Option (List BitflowSource)
  pub delete : Text → Text → S → S × DeleteResult
  pub create : BitflowSource → S → S × Bool

abbrev default_api_version : Text
default_api_version = b'v' ∷ b'1' ∷ []

abbrev default_kind : Text
default_kind = b'P' ∷ b'o' ∷ b'd' ∷ []

abbrev or_default : Text → Text → Text
or_default text default = if eq_text text [] then default else text

unfoldable pub make_owner_references : Option Pod → Bool → Bool → List OwnerReference
make_owner_references none is_controller block_owner_deletion = []
make_owner_references (some pod) is_controller block_owner_deletion =
    if eq_text pod.name [] || eq_text pod.uid []
    then []
    else record {
      api_version = or_default pod.api_version default_api_version;
      kind = or_default pod.kind default_kind;
      name = pod.name;
      uid = pod.uid;
      controller = is_controller;
      block_owner_deletion = block_owner_deletion;
    }
      ∷ []

-- The loop over the sorted keys; a missing key gives the empty string.
unfoldable pub list_pairs : Labels → List Text → List Text
list_pairs m [] = []
list_pairs m (key ∷ keys) =
    key ∷ (elim (find key m) [ none ↦ [] | some val ↦ val ]) ∷ list_pairs m keys

-- listKeysAndValues; `sort` is sort.Strings.
unfoldable pub list_keys_and_values : (List Text → List Text) → Labels → List Text
unfolding list_pairs
list_keys_and_values sort m = list_pairs m (sort (map (λ (key, val). key) m))

-- url.URL: the host, what Port() gives, the path, and the rest.
pub record Url : Type 0 where
  pub host : Text
  pub port : Text
  pub path : Text
  pub rest : Text

-- constructDataSourceEndpoint; `print` is URL.String.
unfoldable pub construct_data_source_endpoint : (Url → Text) → Text → Url → Text → Text
construct_data_source_endpoint print data_source_host base val =
    let port = if not (eq_text base.port []) then b':' ∷ base.port else base.port in
    let host = if not (eq_text data_source_host []) then data_source_host ++ port else base.host in
    print (record base { host = host; path = base.path ++ b'/' ∷ val })

pub record BitflowControllerNotifier : Type 0 where
  pub data_source_name : Text
  pub data_source_labels : Labels
  pub data_source_base_url : Url
  pub data_source_host : Text
  pub data_source_names : List (Text × Text)
  pub pod : Option Pod
  pub namespace : Text

-- What makeDataSource calls: ResolveTagTemplate with the sample, URL.String, HashName, sort.Strings.
pub record Naming (Sample : Type 0) : Type 0 where
  pub resolve : Text → Sample → Text
  pub print_url : Url → Text
  pub hash_name : Text → List Text → Text
  pub sort : List Text → List Text

module _ {Sample : Type 0} (naming : Naming Sample) where
  unfoldable pub resolve_labels : Labels → Sample → Labels
  resolve_labels [] sample = []
  resolve_labels ((key, val) ∷ labels) sample =
      (key, naming.resolve val sample) ∷ resolve_labels labels sample

  unfoldable pub make_data_source : BitflowControllerNotifier → Text → Sample → BitflowSource
  unfolding resolve_labels list_keys_and_values make_owner_references construct_data_source_endpoint
  make_data_source t tag_val sample =
      let url_endpoint =
        construct_data_source_endpoint naming.print_url t.data_source_host t.data_source_base_url
          tag_val in
      let name = naming.resolve t.data_source_name sample in
      let source_labels = resolve_labels t.data_source_labels sample in
      record {
        name =
            naming.hash_name (name ++ b'-' ∷ [])
              (list_keys_and_values naming.sort source_labels ++ url_endpoint ∷ []);
        namespace = t.namespace;
        labels = source_labels;
        owner_references = make_owner_references t.pod false false;
        url = url_endpoint;
      }

module _ {S : Type 0} (client : Client S) where
  -- delete: the cluster after it, and the result.
  unfoldable pub delete_source : BitflowSource → S → S × Bool
  delete_source obj s =
      let (s', result) = client.delete obj.namespace obj.name s in
      (s', elim result [ deleted ↦ true | not_found ↦ true | delete_error ↦ false ])

  module _ (equal_spec : BitflowSource → BitflowSource → Bool) where
    -- One round of the loop of ensureDataSource: existingName, and the cluster.
    unfoldable pub clean_one : BitflowSource → BitflowSource → Text × S → Text × S
    unfolding delete_source
    clean_one source existing (existing_name, s) =
        if not (length existing.labels == length source.labels)
        then (existing_name, s)
        else if equal_spec source existing && eq_text existing_name []
        then (existing.name, s)
        else (existing_name, (delete_source existing s).0)

    unfoldable pub clean_up : BitflowSource → List BitflowSource → Text × S → Text × S
    unfolding clean_one
    clean_up source [] state = state
    clean_up source (existing ∷ list) state = clean_up source list (clean_one source existing state)

    -- The end of ensureDataSource: the name, or none for an error, and the cluster.
    unfoldable pub create_missing : BitflowSource → Text × S → Option Text × S
    create_missing source (existing_name, s) =
        let (s', created) = client.create source s in
        if eq_text existing_name []
        then (if created then some source.name else none, s')
        else (some existing_name, s)

    unfoldable pub ensure_data_source : Text → BitflowSource → S → Option Text × S
    unfolding clean_up create_missing
    ensure_data_source namespace source s = elim (client.list namespace source.labels s) [
      | none ↦ (none, s)
      | some list ↦ create_missing source (clean_up source list ([], s))
    ]

    unfoldable pub updated :
        {Sample : Type 0}
        → Naming Sample
        → BitflowControllerNotifier
        → Text
        → Sample
        → S
        → BitflowControllerNotifier × S
    unfolding make_data_source ensure_data_source
    updated naming t value sample s =
        let (result, s') =
          ensure_data_source t.namespace (make_data_source naming t value sample) s in
        (
          elim result [
            | none ↦ t
            | some source_name ↦ record t {
              data_source_names = store value source_name t.data_source_names;
            }
          ],
          s',
        )

  abbrev source_named : Text → Text → BitflowSource
  source_named namespace name = record {
    name = name;
    namespace = namespace;
    labels = [];
    owner_references = [];
    url = [];
  }

  unfoldable pub expired : BitflowControllerNotifier → Text → S → S × Bool
  unfolding delete_source
  expired t value s = elim (find value t.data_source_names) [
    | none ↦ (s, true)
    | some name ↦ delete_source (source_named t.namespace name) s
  ]
