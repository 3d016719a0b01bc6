-- ===== src/Tests/Hosts.antt =====
-- The advertised address and the ports at concrete inputs.
use ssle_project.Prelude.{◌<◌, ◌^◌, ◌≡◌, refl, Option, some, List, [], ◌∷◌, Bytes, codes, arith}
use ssle_project.Config.{
  Ports, ip_of, v4, InterfaceAddr, ip_net, ip_addr, find_best_addr, unsupported, is_ipv4,
}
use ssle_project.Files.{stored}
use ssle_project.Config.{invalid, load_ports}
use ssle_project.Config.Listen.{Follows, load_ports_lem}
use ssle_project.Config.Hosts.{Config, Machine}
use ssle_project.Config.Best.{
  any_family, prefer_ipv4, first_eligible, or_joined, find_best_addr_lem,
}

-- 169.254.0.1 and 10.0.0.1 in 16 bytes.
abbrev long_ipv4 : Bytes → Bytes
long_ipv4 ip = 0 ∷ 0 ∷ 0 ∷ 0 ∷ 0 ∷ 0 ∷ 0 ∷ 0 ∷ 0 ∷ 0 ∷ 0xff ∷ 0xff ∷ ip

abbrev interfaces : List InterfaceAddr
interfaces =
    ip_addr (long_ipv4 (169 ∷ 254 ∷ 0 ∷ 1 ∷ []))
    ∷ ip_addr (long_ipv4 (192 ∷ 168 ∷ 0 ∷ 1 ∷ []))
    ∷ ip_net (long_ipv4 (10 ∷ 0 ∷ 0 ∷ 1 ∷ [])) is_ipv4
    ∷ []

abbrev lookup_ip : Bytes → Option (List Bytes)
lookup_ip host = some (long_ipv4 (10 ∷ 0 ∷ 0 ∷ 2 ∷ []) ∷ [])

find_best_addr_example :
    (find_best_addr lookup_ip interfaces []
      ≡ some (prefer_ipv4 any_family interfaces (first_eligible any_family interfaces)))
    × (find_best_addr lookup_ip interfaces (codes "r1")
        ≡ some (
            or_joined (long_ipv4 (10 ∷ 0 ∷ 0 ∷ 2 ∷ []) ∷ []) interfaces (
              prefer_ipv4
                (unsupported (long_ipv4 (10 ∷ 0 ∷ 0 ∷ 2 ∷ []) ∷ []))
                interfaces
                (first_eligible (unsupported (long_ipv4 (10 ∷ 0 ∷ 0 ∷ 2 ∷ []) ∷ [])) interfaces))))
unfolding ip_of
find_best_addr_example =
    find_best_addr_lem lookup_ip interfaces (codes "r1") (long_ipv4 (10 ∷ 0 ∷ 0 ∷ 2 ∷ []) ∷ [])
      (refl, (refl, (refl, tt))) (ground arith) refl

two_answers :
    (find_best_addr lookup_ip interfaces [] ≡ some (v4 (192 ∷ 168 ∷ 0 ∷ 1 ∷ [])))
    × (find_best_addr lookup_ip interfaces (codes "r1") ≡ some (v4 (10 ∷ 0 ∷ 0 ∷ 1 ∷ [])))
unfolding find_best_addr
two_answers = (refl, refl)

abbrev given_ports : Ports
given_ports = record { etcd = 2380; etcd_client = 0; peer_api = 4000; agent_api = 0 }

load_ports_example :
    (0 < (load_ports given_ports).etcd_client)
    × ((load_ports given_ports).etcd_client < 2 ^ 16)
    × (0 < (load_ports given_ports).peer_api)
    × ((load_ports given_ports).peer_api < 2 ^ 16)
    × (0 < (load_ports given_ports).agent_api)
    × ((load_ports given_ports).agent_api < 2 ^ 16)
    × ((load_ports given_ports).etcd ≡ 2380)
    × Follows 2380 0 (load_ports given_ports).etcd_client
    × Follows (load_ports given_ports).etcd_client 4000 (load_ports given_ports).peer_api
    × Follows (load_ports given_ports).peer_api 0 (load_ports given_ports).agent_api
unfolding load_ports
load_ports_example =
    load_ports_lem given_ports (load_ports given_ports) refl (omega arith) (omega arith)
      (omega arith) (omega arith) (omega arith)

abbrev machine : Machine
machine = record {
  lookup_ip = lookup_ip;
  interface_addrs = interfaces;
  split_host = λ url. some (codes "r1");
  read_file = λ path. stored (codes "secret\n");
  trim_space = λ text. codes "secret";
}

-- A registry that joins another, with its token in a file and no host name.
abbrev joining : Config
joining = record {
  name = codes "r2";
  dir = codes "state";
  initial_token = [];
  initial_token_file = codes "token";
  join_url = codes "r1:2381";
  peer_listen_addr = invalid;
  peer_advertise_hostname = record { fqdn = []; addr = invalid };
  agent_api_listen_addr = invalid;
  agent_api_advertise_hostname = record { fqdn = []; addr = invalid };
  ports = given_ports;
}

abbrev joined : Config
joined = record joining {
  initial_token = codes "secret";
  peer_advertise_hostname = record { fqdn = []; addr = v4 (10 ∷ 0 ∷ 0 ∷ 1 ∷ []) };
  agent_api_advertise_hostname = record { fqdn = []; addr = v4 (10 ∷ 0 ∷ 0 ∷ 1 ∷ []) };
  ports = record { etcd = 2380; etcd_client = 2381; peer_api = 4000; agent_api = 4001 };
}
