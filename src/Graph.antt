-- ===== src/Graph.antt =====
-- graph.go and the state of graph_node.go: the graph of the collectors.
-- A *collectorNode is the number of its uniqueID, a Collector is a number that stands for the
-- object, a set is the list of its members, and a node's fields stand on a heap. Of Go's maps
-- that are walked by `range`, the order is that of the list.
pub mod Init
pub mod Prune
pub mod Invariant
pub mod Build
pub mod Complete
pub mod Order
pub mod Pruned
pub mod Incoming
pub mod Repaired
pub mod Correct
use Prim.Native.String.{String}
use go_bitflow_collector.Prelude.{
  ℕ, suc, ◌+◌, Bool, true, false, Option, none, some, List, [], ◌∷◌, ◌++◌, ◌==◌, if◌then◌else◌,
  contains, delete, insert, lookup, put, not,
}

-- What the graph calls of a collector: the methods Init (`none` is an error), Metrics (the names;
-- a nil map and an empty one give no name), Depends and String.
pub record Collectors : Type 0 where
  pub init : ℕ → Option (List ℕ)
  pub metrics : ℕ → List String
  pub depends : ℕ → List ℕ
  pub string : ℕ → String

-- `metrics` is none before a successful init().
pub record CollectorNode : Type 0 where
  pub collector : ℕ
  pub failed_updates : ℕ
  pub metrics : Option (List String)
  pub update_frequency : ℕ

-- `node_ids` holds the keys of nodeIDs; the value at a key is the node with that ID.
-- `last_id` is the variable __nodeID.
pub record CollectorGraph : Type 0 where
  pub nodes : List ℕ
  pub node_ids : List ℕ
  pub failed : List ℕ
  pub failed_list : List ℕ
  pub filtered : List ℕ
  pub collectors : List (ℕ × ℕ)
  pub heap : ℕ → CollectorNode
  pub last_id : ℕ

abbrev pub no_node : CollectorNode
no_node = record { collector = 0; failed_updates = 0; metrics = none; update_frequency = 0 }

unfoldable pub new_empty_graph : ℕ → CollectorGraph
new_empty_graph last_id = record {
  nodes = [];
  node_ids = [];
  failed = [];
  failed_list = [];
  filtered = [];
  collectors = [];
  heap = λ _. no_node;
  last_id = last_id;
}

-- A write to the fields of a node.
unfoldable pub update_node : ℕ → (CollectorNode → CollectorNode) → CollectorGraph → CollectorGraph
update_node n f g = record g { heap = λ m. if m == n then f (g.heap m) else g.heap m }

unfoldable pub insert_collector_node : ℕ → CollectorGraph → CollectorGraph
insert_collector_node n g = record g {
  nodes = insert n g.nodes;
  node_ids = insert n g.node_ids;
  collectors = put (g.heap n).collector n g.collectors;
}

-- The new node is `last_id` of the result.
unfoldable pub new_collector_node : ℕ → CollectorGraph → CollectorGraph
unfolding update_node insert_collector_node
new_collector_node c g =
    let n = suc g.last_id in
    insert_collector_node n
      (update_node n (λ _. record no_node { collector = c }) (record g { last_id = n }))

unfoldable pub delete_collector : ℕ → CollectorGraph → CollectorGraph
delete_collector n g = record g {
  nodes = delete n g.nodes;
  node_ids = delete n g.node_ids;
  filtered = delete n g.filtered;
  failed = delete n g.failed;
}

unfoldable pub collector_failed : ℕ → CollectorGraph → CollectorGraph
collector_failed n g =
    let new = not (contains n g.failed) in
    record g {
      nodes = delete n g.nodes;
      node_ids = delete n g.node_ids;
      filtered = delete n g.filtered;
      failed = if new then insert n g.failed else g.failed;
      failed_list = if new then g.failed_list ++ n ∷ [] else g.failed_list;
    }

unfoldable pub collector_filtered : ℕ → CollectorGraph → CollectorGraph
collector_filtered n g =
    if not (contains n g.failed)
    then record g {
      nodes = delete n g.nodes;
      node_ids = delete n g.node_ids;
      filtered = insert n g.filtered;
    }
    else g

-- `none` is the panic of a collector that has no node.
unfoldable pub resolve : CollectorGraph → ℕ → Option ℕ
resolve g c = lookup c g.collectors
