-- ===== src/Config/Listen.antt =====
-- The ports that are derived from the port of etcd.
use ssle_project.Prelude.{ℕ, ◌+◌, ◌≡◌, ◌<◌, ◌≤◌, ◌^◌, ◌⊎◌, arith}
use ssle_project.Config.{Ports, load_ports}

-- The port is the configured one, or it was not configured and is the one after another port.
abbrev pub Follows : ℕ → ℕ → ℕ → Type 0
Follows before configured port =
    ((0 < configured) × (port ≡ configured)) ⊎ ((configured ≡ 0) × (port ≡ before + 1))

-- If the port of etcd is set and no configured port is so large that the ports after it leave 16 bits,
-- then every port is set once the configuration is loaded and fits in 16 bits: a port that was
-- configured is kept, and any other is one more than the port before it.
pub load_ports_lem :
    (p q : Ports)
    → q ≡ load_ports p
    → 0 < p.etcd
    → p.etcd ≤ 65532
    → p.etcd_client ≤ 65533
    → p.peer_api ≤ 65534
    → p.agent_api ≤ 65535
    → (0 < q.etcd_client)
      × (q.etcd_client < 2 ^ 16)
      × (0 < q.peer_api)
      × (q.peer_api < 2 ^ 16)
      × (0 < q.agent_api)
      × (q.agent_api < 2 ^ 16)
      × (q.etcd ≡ p.etcd)
      × Follows q.etcd p.etcd_client q.etcd_client
      × Follows q.etcd_client p.peer_api q.peer_api
      × Follows q.peer_api p.agent_api q.agent_api
unfolding load_ports
load_ports_lem p q same e a b c d = ground arith
