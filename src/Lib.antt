-- ===== src/Lib.antt =====
-- The metric collectors of the agent (go-bitflow-collector): how collectors are built into a
-- graph and updated, and how their values are measured.
--
-- A Collector is initialised into a node of a collectorGraph, together with the collectors that
-- its Init returns. A SampleSource builds that graph from its root collectors, filters metrics
-- and nodes, prunes the graph, and starts one loop of updates for each node, in the order of the
-- dependencies. Each metric of the nodes that are left has a place in the sample that is sent.
-- The collectors of psutil/, libvirt/ and ovsdb/ keep their values in rings, which give the change
-- over an interval; those of processes also read what pcap/ counts for their connections. The
-- agent takes the processes to collect from a REST API, and plugins handle the samples.
--
-- Files and sources:
--   Logback: LogbackValue and StoredValue of value_ring.go, and cpuTime of psutil/cpu.go.
--   Ring: value_ring.go. Ring/Slots gives the history of a ring, Ring/Refine its refinement by
--     that history, Ring/Overflow and Ring/Forget are about GetDiff after an overflow.
--   Graph: graph.go, with init_nodes and init_collector_graph in Graph/Init and pruneAndRepair in
--     Graph/Prune; the other files below Graph prove what these do.
--   Node: graph_node.go. Node/Filters is about metric filters, Node/Updates about failures of
--     updates; Node/Schedule models the goroutines of the nodes, with their waiting, their checks and
--     the stopper, as a step relation, and Node/Progress is about how they go on.
--   Metrics: the names and samples of collector.go, and the printing of source.go.
--   Source: createFilteredGraph and the checks of source.go, the filters of graph.go, and the view
--     of the graph in graph_gonum.go; Source/Collect: collect and PrintMetrics; Source/Conditions:
--     startUpdates, and the start of loopUpdate in graph_node.go. Source/Filtered and
--     Source/Sampled are about what the filters leave, Source/Edges about the view of the graph,
--     and Source/Wired about the conditions, with Source/Owned, Source/Endpoints and Source/Connected
--     before it.
--   Pcap: pcap/connection.go and pcap/connections.go, with Pcap/Table about the table of
--     connections; Pcap/Capture: pcap/capture.go and pcap/pcap_impl/pcap.go, with Pcap/Counted and
--     Pcap/Captured about the loop over the packets; Pcap/Proc: pcap/proc.go, with
--     Pcap/Proc/Address about IPv4 addresses and Pcap/Proc/Split about strings.Split; Pcap/Inodes:
--     pcap/proc_pid.go.
--   Psutil/Net: psutil/net_counters.go and psutil/net.go; Psutil/Disk: psutil/disk.go;
--     Psutil/Process and Psutil/Multi: psutil/process.go and psutil/pids.go; Psutil/ProcInfo
--     and Psutil/ProcStatus: psutil/process_infos.go and psutil/process_pcap.go;
--     Psutil/NetProto: psutil/net_proto.go;
--     Psutil/DiskUsage: psutil/disk_usage.go; Psutil/Host: psutil/cpu.go, psutil/load.go,
--     psutil/memory.go and mock/collector.go. Psutil/Tables has lemmas on tables. Psutil/Counted,
--     Psutil/Observed, Psutil/Status, Psutil/LastConnection and Psutil/Changed prove what counters
--     record, which processes are observed, what is read of a status file, with Psutil/Decimal on
--     its numbers, what is left of a process's connections, and when the disks or protocols have
--     changed.
--   Libvirt: the collectors and drivers of libvirt/, with the values of rings in Libvirt/Cpu and the
--     updates of rings in Libvirt/Rings.
--   Ovsdb: ovsdb/, with Ovsdb/Recorded, Ovsdb/Updated and Ovsdb/Notified about one interface, the
--     table of interfaces, and notifications.
--   Plugins/Notifier: plugins/notify-bitflow-controller, with Plugins/CleanUp and
--     Plugins/Sources about the data sources in the cluster, and its laws in Plugins/Cluster;
--     Plugins/VolumeTagger: plugins/volume-tagging, with Plugins/Tags about the tag.
--   Agent: bitflow-collector/collector_process.go. Agent/Asked says what requests ask for, and
--     Agent/Monitored and Agent/Stuck what they do, with Agent/Described, Agent/Updated and
--     Agent/Broken about the update that they cause.
--   Tests: runs at concrete inputs. Prelude: shared names, lists, integers, sets and maps.
--
-- Conventions. A *collectorNode is the number of its uniqueID, and the fields of nodes stand on a
-- heap in the graph; a Collector is a number that stands for the object. A set and a map are
-- lists, whose order is the one in which `range` walks them. An operation that can panic has an
-- Option as its result, with none for the panic, or a Result where errors stand beside panics.
-- Counters of type uint64 wrap at 2 ^ 64. Instants are integers, in nanoseconds, and time.Now is an
-- argument.
--
-- Parameters. The record Collectors has what the graph calls of a collector; `sort` is topo.Sort
-- of gonum, and the record IsSortable says what its documentation promises of its order. FloatOps
-- has what the code uses of float64. sort.Sort is an argument, and IsSorting says that it keeps the
-- elements. The record Client has the calls of the Kubernetes client, and IsCluster what they do to
-- the objects in a namespace, where Create fails for a name that is there; the record Methods has
-- those of golib.KeyValueStringSlice, and IsTable what they do to its map. Regular expressions,
-- the sum of hash/fnv, the decoding of packets by gopacket, and what the operating system,
-- gopsutil, libvirt and libovsdb return are arguments.
--
-- Fuel. init_nodes takes fuel for the depth of its recursion: more than the number of collectors
-- that can be reached suffices. add_children takes fuel for the depth of the tree of processes.
-- show_nat takes ten digits, which every number that parseHex returns has at most.
--
-- Not modelled: locking and logging; the goroutines of startUpdates, loopCheck and sinkMetrics, of
-- which Node/Schedule has what startUpdates does to the conditions; the writing of graph images; the
-- tables by which metrics have their names and readers, but for some readers; the XML of libvirt
-- domains; the text of responses of the REST API; the command line flags and the wiring of the
-- agent, and the command line programs.
pub mod Prelude
pub mod Logback
pub mod Ring
pub mod Graph
pub mod Node
pub mod Metrics
pub mod Source
pub mod Pcap
pub mod Psutil
pub mod Libvirt
pub mod Ovsdb
pub mod Plugins
pub mod Agent
mod Tests
