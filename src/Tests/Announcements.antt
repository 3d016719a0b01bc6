-- ===== src/Tests/Announcements.antt =====
-- A registry in front of the server in memory that announces its address.
use mathlib.Core.List.{Mem, mem-cons_self}
use ssle_project.Prelude.{
  ◌≡◌, refl, true, none, some, List, [], ◌∷◌, map, Bytes, codes, equal, equal_refl, in_range, ◌+◌,
}
use ssle_project.Handler.{ok}
use ssle_project.Keys.{node_key}
use ssle_project.Etcd.{put, TxnRequest, Entry, Contents, version_of, created_at}
use ssle_project.Config.{Addr, v4}
use ssle_project.Config.Hosts.{Config, agent_api_advertise_host}
use ssle_project.Registry.Auth.{
  authenticate_node_from_certificate, extract_peer_certificate, extract_peer_datacenter_node,
  get_node_schema,
}
use ssle_project.Registry.NodeApi.{ConfigResponse, config}
use ssle_project.Registry.PeerApi.{add_node, implicit_of, node_of}
use ssle_project.Registry.Cluster.{Server, post_start_update}
use ssle_project.Registry.Cluster.Announced.{Announces, config-post_start_update}
use ssle_project.Tests.Memory.{
  Memory, Value, text_value, memory, memory-IsHealthy, commit, collect, signer,
}
use ssle_project.Tests.Nodes.{web, one_node, caller, certificate}

abbrev text_put : Bytes → Bytes → TxnRequest Value
text_put k v = record { compare = []; success = put k (text_value v) 0 ∷ [] }

abbrev server : Server Memory
server = record {
  name = codes "r2";
  member_id = 4;
  advertise_peer_urls = [];
  advertise_client_urls = [];
  update_member = λ m s. (none, s);
  put = λ k v s. (some tt, commit (text_put k v) s true);
}

first_Mem :
    (c : Contents Value) (a b k v : Bytes) (keys : List Bytes) (entry : Entry Value)
    → in_range a b k ≡ true
    → c k ≡ some entry
    → memory.text entry.value ≡ v
    → Mem v (map (λ kv. memory.text kv.value) (collect c a b (k ∷ keys)))
first_Mem c a b k v keys entry inside at text = rw (inside, at, text) mem-cons_self

abbrev announced : Bytes → Bytes → Memory → Entry Value
announced k v s = record {
  value = text_value v;
  lease = 0;
  version = version_of (s.contents k) + 1;
  create_index = created_at (s.revision + 1) (s.contents k);
}

server-Announces : Announces memory memory-IsHealthy server
server-Announces = record {
  put_lists = λ key range_end k v s inside written.
      let s' : Memory = commit (text_put k v) s true in
      (
        collect s'.contents key range_end (k ∷ s.keys),
        refl,
        first_Mem s'.contents key range_end k v s.keys (announced k v s) inside
            (rw (equal_refl k) refl) refl,
      );
}

abbrev started : Config
started = record {
  name = codes "r2";
  dir = codes "state";
  initial_token = [];
  initial_token_file = [];
  join_url = [];
  peer_listen_addr = v4 [];
  peer_advertise_hostname = record { fqdn = []; addr = v4 [] };
  agent_api_listen_addr = v4 [];
  agent_api_advertise_hostname = record { fqdn = []; addr = v4 [] };
  ports = record { etcd = 2380; etcd_client = 2381; peer_api = 2382; agent_api = 2383 };
}

abbrev print : Addr → Bytes
print addr = codes "10.0.0.1"

config-post_start_update_example :
    (res : ConfigResponse signer.Pem) × ((config signer memory 0 1 caller
        (post_start_update print started server one_node)).0
      ≡ ok res)
    × Mem (agent_api_advertise_host print started) res.registry_addrs
unfolding post_start_update authenticate_node_from_certificate extract_peer_certificate add_node
    implicit_of node_of node_key equal extract_peer_datacenter_node get_node_schema
config-post_start_update_example =
    config-post_start_update memory memory-IsHealthy server server-Announces print started signer 0
      1 caller certificate (codes "Agents") (node_of web) one_node
      (post_start_update print started server one_node) refl refl refl refl
