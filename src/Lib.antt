-- ===== src/Lib.antt =====
-- roole is a C library for clusters of nodes that route messages to workers and run workflows
-- (DAGs) on them. This library models its core; what is proved is listed at the end.
--
-- Parts and files. Paths are from the repository's root.
--   Base              shared names, lists over the native numbers, the status codes of
--                     include/roole/common.h and include/roole/cluster.h
--   Table, Slots      the two kinds of array that the program keeps under a lock: a dense array
--                     with a count, searched by a key, and an array of slots with an `active` flag
--   Ring              the circular buffer of src/node/message_queue.c, of the update queue and of
--                     the event bus
--   MessageQueue      src/node/message_queue.c: message_queue_init, push, pop, size
--   ClusterView       src/cluster/membership.c: cluster_view_init, add, update_status, remove
--                     (`delete`), get, list_by_type, list_alive; Registry is its specification
--   Wire              numbers in network order and fixed fields, written and read
--   Gossip            of src/cluster/gossip_protocol.c the messages (Message) and the bootstrap
--                     response (Bootstrap); of src/cluster/gossip_engine.c the queue of updates
--                     (UpdateQueue), the table of awaited acknowledgements (FailureDetector) and
--                     the engine (Engine): handle_ping_message and handle_ack_message (Ping), the
--                     SUSPECT, ALIVE, DEAD and JOIN messages (Rumours), handle_worker_join_message
--                     (WorkerJoin), dispatch_message and the listener (Dispatch), a round of the
--                     protocol thread (Protocol), gossip_engine_add_seed, announce_join and leave
--                     (Announce)
--   Rpc               src/core/rpc.c: rpc_pack_message and rpc_unpack_header; Stream is
--                     process_buffered_data, which takes requests out of the bytes received
--   EventBus          src/core/event_bus.c: event_bus_create, subscribe, unsubscribe, publish,
--                     publish_sync and a round of the dispatch thread
--   ServiceRegistry   src/core/service_registry.c: service_registry_register, unregister and get
--   Metrics           src/core/metrics.c: find_or_create_metric and the operations on a metric;
--                     Histogram is metrics_get_or_create_histogram and metrics_histogram_observe;
--                     `double` is a parameter, but bounds of buckets are whole or infinite
--   PeerPool          src/node/peer_pool.c: peer_pool_add, remove (`delete`), update_status,
--                     update_load, update_capabilities, get, list_alive, list_by_capability,
--                     select_least_loaded, select_round_robin; `float` is a parameter
--   ExecutionTracker  src/node/execution_tracker.c: execution_tracker_add, update_status, get,
--                     get_by_worker, remove (`delete`), cleanup_completed
--   Dag               include/roole/dag.h, dag_validate of src/dag/dag_catalog.c (Dag/Validate),
--                     dag_serialize and dag_deserialize of the same file (Dag/Wire), and
--                     src/dag/dag_executor.c (Dag/Executor)
--   DagCatalog        src/dag/dag_catalog.c: dag_catalog_add, update, remove (`delete`), get, list
--
-- How they interact. A gossip datagram is read (Gossip/Message) and dispatched (Gossip/Engine); its
-- updates change the cluster view, are told to the callback, and are queued, to travel with the
-- pings of the next rounds; a ping leaves an entry in the failure detector, which suspects the
-- member if the acknowledgement does not come, and a suspect that stays silent becomes dead. A
-- worker that joins is put in the view and in the peer pool. RPC requests are taken out of the bytes
-- of a connection and served; their handlers put messages in the message queue, and executor threads
-- take them out and run the DAG that the catalog has for them. A router selects a worker in the peer
-- pool, and the tracker keeps what was handed to workers.
--
-- How code becomes definitions. A function that holds a lock is one step: it takes the state and
-- returns it with the status. A handler of the gossip engine is one step too, and its datagrams and
-- calls of the callback are lists in the state. Time, the results of allocations and the states that
-- a thread sees after a wait are arguments. Arrays with a count are lists; a C string is the bytes
-- before its end. Numbers are natural numbers, with the wrap-around written out where the code may
-- reach it. An access that could leave a buffer or an array has a result for that case where a
-- theorem rules it out or describes it.
--
-- Bounds and fuel. The passes of `dag_execute` have one more than the number of steps as fuel, since
-- every pass but the last completes a step, and the framing loop of RPC one more than the number of
-- bytes, since every request takes twelve bytes at least; theorems prove that both return with that
-- fuel. All other loops recurse on the list or counter they walk.
--
-- Not modelled: guards against null pointers, log lines, the locks themselves, the start and end of
-- threads, and interleavings inside a handler; sockets: the gossip transport, the event loop and the
-- client connection of RPC; the membership handle, which starts and stops the engine; the
-- configuration, the logger, the text of the metrics and its HTTP endpoint; and the handlers and
-- main loops of src/node.
pub mod Base
pub mod Table
pub mod Slots
pub mod Ring
pub mod MessageQueue
pub mod Wire
pub mod ClusterView
pub mod Gossip
pub mod ExecutionTracker
pub mod Dag
pub mod DagCatalog
pub mod PeerPool
pub mod Rpc
pub mod EventBus
pub mod ServiceRegistry
pub mod Metrics
