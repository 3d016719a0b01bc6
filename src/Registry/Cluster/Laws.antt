-- ===== src/Registry/Cluster/Laws.antt =====
-- A registry that joins a cluster: `GetPeers`, `main` and `CreateEtcdConfig`.
use ssle_project.Prelude.{
  ◌-◌, ◌^◌, ◌<◌, ◌≡◌, ◌≢◌, refl, sym, ap, ◌∙◌, false, some, Bool-cases, inl, inr, List, [], ◌∷◌,
  ◌++◌, map, All, Bytes, equal, equal_iff, arith, if◌then◌else◌,
}
use mathlib.Core.List.{append_assoc, append-nil}
use ssle_project.Numbers.Decimal.{parse_uint-format_uint}
use ssle_project.Keys.{split}
use ssle_project.Keys.Parts.{Without, split-Without, split-append}
use ssle_project.Config.{Addr}
use ssle_project.Config.Hosts.{
  Config, etcd_listen_urls, etcd_advertise_urls, etcd_client_listen_urls,
  etcd_client_advertise_urls,
}
use ssle_project.Registry.Cluster.{
  Member, peer_of, get_peers, member_of, members_of, starting_members, append_urls, append_members,
  cluster_state, existing, StateFiles, EtcdConfig, Embed, with_urls, create_etcd_config,
}

-- What the peer API can pass on of a member: it has an identifier of 64 bits, and it votes.
abbrev pub IsVoter : Member → Type 0
IsVoter member = (member.id < 2 ^ 64) × (member.is_learner ≡ false)

member_of-peer_of : (member : Member) → IsVoter member → member_of (peer_of member) ≡ some member
unfolding member_of peer_of
member_of-peer_of member h =
    ground (arith, parse_uint-format_uint (2 ^ 64 - 1) member.id (omega (arith, h.0)), h.1)

members_of-get_peers :
    (members : List Member) → All IsVoter members → members_of (get_peers members) ≡ some members
unfolding members_of get_peers
members_of-get_peers [] h = refl
members_of-get_peers (member ∷ members) h =
    ground (arith, member_of-peer_of member h.0, members_of-get_peers members h.1)

-- The entry of one address, and the entries that members add, each in a text of its own.
abbrev pub entry : Bytes → Bytes → Bytes
entry name url = name ++ (b'=' ∷ url)

unfoldable pub entries : Bytes → List Member → List Bytes
entries own [] = []
entries own (member ∷ members) =
    if equal member.name own
    then entries own members
    else map (entry member.name) member.peer_urls ++ entries own members

-- No comma in the name of a member, nor in its addresses.
abbrev pub IsListed : Member → Type 0
IsListed member = All (λ url. Without b',' (entry member.name url)) member.peer_urls

split-append_urls :
    (cluster name : Bytes) (urls : List Bytes)
    → All (λ url. Without b',' (entry name url)) urls
    → split b',' (append_urls cluster name urls) ≡ split b',' cluster ++ map (entry name) urls
unfolding append_urls
split-append_urls cluster name [] h = sym (append-nil (split b',' cluster))
split-append_urls cluster name (url ∷ urls) h =
    split-append_urls (cluster ++ (b',' ∷ entry name url)) name urls h.1
    ∙ ap (λ xs. xs ++ map (entry name) urls)
        (split-append b',' cluster (entry name url)
          ∙ ap (λ xs. split b',' cluster ++ xs) (split-Without b',' (entry name url) h.0))
    ∙ append_assoc (split b',' cluster) (entry name url ∷ []) (map (entry name) urls)

split-append_members :
    (own cluster : Bytes) (members : List Member)
    → All IsListed members
    → split b',' (append_members own cluster members) ≡ split b',' cluster ++ entries own members
unfolding append_members entries
split-append_members own cluster [] h = sym (append-nil (split b',' cluster))
split-append_members own cluster (member ∷ members) h = elim (Bool-cases (equal member.name own)) [
  | inl self ↦ rw self (split-append_members own cluster members h.1)
  | inr other ↦ rw other (
      split-append_members own (append_urls cluster member.name member.peer_urls) members h.1
      ∙ ap (λ xs. xs ++ entries own members)
          (split-append_urls cluster member.name member.peer_urls h.0)
      ∙ append_assoc (split b',' cluster) (map (entry member.name) member.peer_urls)
          (entries own members))
]

module _ (print : Addr → Bytes) (m : Embed) (state : StateFiles) (config : Config) where
  -- A registry that joins a cluster starts with the members that the cluster reports, if each of them
  -- votes and has an identifier of 64 bits, and there is one. Where its own URLs parse, its etcd server
  -- is configured to join an existing cluster. Cut at its commas, the initial cluster is the registry's
  -- own part and then one entry for each peer URL of each member with another name, in their order. No
  -- name and no peer URL of a member contains a comma.
  pub create_etcd_config-joined :
      (first : Member) (members : List Member)
      (listen advertise client_listen client_advertise : List m.Url)
      → config.join_url ≢ []
      → All IsVoter (first ∷ members)
      → All IsListed (first ∷ members)
      → etcd_listen_urls print config m.parse_url ≡ some listen
      → etcd_advertise_urls print config m.parse_url ≡ some advertise
      → etcd_client_listen_urls print config m.parse_url ≡ some client_listen
      → etcd_client_advertise_urls print config m.parse_url ≡ some client_advertise
      → (cfg : EtcdConfig m.Url) × (starting_members config (some (get_peers (first ∷ members)))
          ≡ some (first ∷ members))
        × (create_etcd_config print m (first ∷ members) state config ≡ some cfg)
        × (cfg.cluster_state ≡ existing)
        × (split b',' cfg.initial_cluster
            ≡ split b',' (m.from_name advertise config.name)
              ++ entries config.name (first ∷ members))
  unfolding create_etcd_config with_urls cluster_state starting_members
  create_etcd_config-joined first members listen advertise client_listen client_advertise joins
        voters listed a b c d =
      let all = first ∷ members in
      (
        with_urls print m all state config listen advertise client_listen client_advertise,
        ground (arith, members_of-get_peers all voters, equal_iff config.join_url []),
        ground arith,
        refl,
        split-append_members config.name (m.from_name advertise config.name) all listed,
      )
