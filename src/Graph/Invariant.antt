-- ===== src/Graph/Invariant.antt =====
-- The invariant of collectorGraph (graph.go): the sets of nodes are apart, nodeIDs agrees with
-- them, and new IDs are fresh.
use go_bitflow_collector.Prelude.{
  ℕ, suc, ◌≤◌, ◌<◌, ◌≡◌, true, false, [], ◌∷◌, contains, arith, contains-delete, contains-insert,
  contains-append,
}
use go_bitflow_collector.Graph.{
  CollectorNode, CollectorGraph, new_empty_graph, update_node, new_collector_node, delete_collector,
  collector_failed, collector_filtered,
}

-- What is true of every number `n` as a node of the graph.
pub record IsPlaced (g : CollectorGraph) (n : ℕ) : Type 0 where
  pub same_ids : contains n g.node_ids ≡ contains n g.nodes
  pub not_both : contains n g.nodes ≡ true → contains n g.failed ≡ false
  pub not_filtered : contains n g.nodes ≡ true → contains n g.filtered ≡ false
  pub failed_apart : contains n g.failed ≡ true → contains n g.filtered ≡ false
  pub listed : contains n g.failed ≡ true → contains n g.failed_list ≡ true
  pub fresh : g.last_id < n → contains n g.nodes ≡ false
  pub fresh_failed : g.last_id < n → contains n g.failed ≡ false
  pub fresh_filtered : g.last_id < n → contains n g.filtered ≡ false

abbrev pub IsWellFormed : CollectorGraph → Type 0
IsWellFormed g = (n : ℕ) → IsPlaced g n

pub new_empty_graph-IsWellFormed : (last_id : ℕ) → IsWellFormed (new_empty_graph last_id)
unfolding new_empty_graph contains
new_empty_graph-IsWellFormed last_id n = ground arith

pub new_collector_node-IsWellFormed :
    (c : ℕ) (g : CollectorGraph) → IsWellFormed g → IsWellFormed (new_collector_node c g)
unfolding new_collector_node
new_collector_node-IsWellFormed c g v n = ground (
  arith,
  v n,
  contains-insert n (suc g.last_id) g.nodes,
  contains-insert n (suc g.last_id) g.node_ids,
)

pub delete_collector-IsWellFormed :
    (m : ℕ) (g : CollectorGraph) → IsWellFormed g → IsWellFormed (delete_collector m g)
unfolding delete_collector
delete_collector-IsWellFormed m g v n = ground (
  arith,
  v n,
  contains-delete n m g.nodes,
  contains-delete n m g.node_ids,
  contains-delete n m g.filtered,
  contains-delete n m g.failed,
)

-- A failure of a node that was made before.
pub collector_failed-IsWellFormed :
    (m : ℕ) (g : CollectorGraph)
    → m ≤ g.last_id
    → IsWellFormed g
    → IsWellFormed (collector_failed m g)
unfolding collector_failed contains
collector_failed-IsWellFormed m g h v n = ground (
  arith,
  v n,
  contains-delete n m g.nodes,
  contains-delete n m g.node_ids,
  contains-delete n m g.filtered,
  contains-insert n m g.failed,
  contains-append n g.failed_list (m ∷ []),
)

pub collector_filtered-IsWellFormed :
    (m : ℕ) (g : CollectorGraph)
    → m ≤ g.last_id
    → IsWellFormed g
    → IsWellFormed (collector_filtered m g)
unfolding collector_filtered
collector_filtered-IsWellFormed m g h v n = ground (
  arith,
  v n,
  contains-delete n m g.nodes,
  contains-delete n m g.node_ids,
  contains-insert n m g.filtered,
)

pub update_node-IsWellFormed :
    (m : ℕ) (f : CollectorNode → CollectorNode) (g : CollectorGraph)
    → IsWellFormed g
    → IsWellFormed (update_node m f g)
unfolding update_node
update_node-IsWellFormed m f g v n = ground (arith, v n)
