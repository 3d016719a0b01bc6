-- ===== src/Lib.antt =====
-- A model of the service registry, of the agent that runs on each node and of the Prometheus observer.
--
-- The registry keeps everything in an embedded etcd server. A node is added through the peer API and
-- gets a certificate. Each later call of the node is authenticated by that certificate. An agent
-- registers the services of its containers, each under two keys that are attached to the node's lease,
-- and looks services up for DNS. An observer reads and watches the services of its datacenter and
-- writes them as Prometheus targets.
--
-- Parts, with the code they model:
--   Prelude      names of the library that are passed on, and texts as lists of bytes
--   Numbers      numbers as text in base 10, base 64 and base 16 (strconv, encoding)
--   Files        what the programs read and write with the package os
--   Handler      the errors of registry/utils/utils.go and registry/peer_api/peer_api.go, and the monad
--                of the handlers: a function from the store to a result, an error or a panic, and the
--                store after it
--   Schemas      NodeSchema of registry/schemas/schemas.go, the messages of services/agent_api.proto
--   Etcd         the interface of the etcd server and of encoding/json, which the handlers take as a
--                parameter; IsHealthy is what etcd documents of a server that answers
--   Keys         the key layout and PrefixEnd of registry/utils/utils.go
--   Registry     Auth and Lease (registry/utils/utils.go), Services (registry/agent_api/register.go
--                and delete.go), Discover (discover.go), NodeApi (node_api.go), Observer
--                (observer.go), PeerApi (registry/peer_api/peer_api.go), State
--                (registry/state/state.go);
--                Discover/Complete, Levels and Found follow a registered service into the answer
--                of a discovery, Catalog is the listing of services by place that the agent API implements,
--                Cluster is the start of a registry (registry/etcd/etcd.go, registry/main.go and
--                GetPeers of peer_api.go)
--   Prometheus   prom-sd-observer/state/state.go and the loop of prom-sd-observer/main.go; Run is the
--                process, with its start, as a relation of steps
--   Dns          agent/dns.go
--   Agent        agent/main.go and the events of agent/events/events.go; Signature is
--                agent/signature.go, with the bundle's Parts, and the Bundle that is verified; Trusted
--                puts it in the place of the host's check; Run is its start and its cleanup;
--                Load is LoadState, and Log is WriteEvent of agent/state/state.go
--   Config       the advertised address (Best), the ports (Listen) and the configuration with its
--                hosts (Hosts) of registry/config/config.go, and the host names of
--                registry/schemas/schemas.go
--   Node         node-utils/lib.go and node-utils/helpers.go; Start is LoadNodeState, Jobs the times
--                of the requests of the background jobs
--   Cli          the commands of cmd/cmd
--   Tests        a server in memory, and the theorems at concrete inputs
-- Function names are those of the code in snake case: register is Register, get_node_lease is
-- GetNodeLease, serve_dns is ServeDNS.
--
-- Keys and strings are lists of bytes, times are numbers of nanoseconds. The loop of GetNodeLease runs
-- on the number of its rounds, 5, as in the code, and the one over the attempts of a DNS server on
-- their number. All other loops run over a list: endless ones over what they receive. A Go map is an
-- association list, and the order in which it is visited is a parameter. A nil dereference and an
-- index out of range are the result panic of a handler, and none in the other functions; the end of the
-- process is none. A log line is no state and is left out.
--
-- Parameters, since their code is not in the repository: etcd, JSON, certificates, the network
-- address functions, the DNS library, Docker, the verification of signatures, and the file system.
--
-- Not modelled: the start-up code of the agent and the registry, which opens connections and starts
-- servers, the interleaving of the agent's goroutines with its cleanup, and the configuration of the
-- agent and the observer, which reads the environment. Code under services/ is generated.
pub mod Prelude
pub mod Files
pub mod Numbers
pub mod Keys
pub mod Handler
pub mod Schemas
pub mod Etcd
pub mod Registry
pub mod Prometheus
pub mod Dns
pub mod Agent
pub mod Config
pub mod Node
pub mod Cli
pub mod Tests
