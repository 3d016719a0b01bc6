-- ===== src/Registry/Catalog/Laws.antt =====
-- Calls of agents, in any order, against the listing.
use mathlib.Core.Path.{subst}
use ssle_project.Prelude.{
  ◌≡◌, sym, Option, Option-cases, inl, inr, List, [], ◌∷◌, Bytes, arith, All,
}
use ssle_project.Handler.{Error, auth_failure, Outcome, ok, fail, panic, Outcome-cases}
use ssle_project.Schemas.{NodeSchema, ServiceSpec, RegisterServiceRequest, DeregisterServiceRequest}
use ssle_project.Keys.Parts.{IsPart}
use ssle_project.Etcd.{Etcd, IsHealthy, RoundTrips}
use ssle_project.Registry.Auth.{PeerInfo, authenticate_agent}
use ssle_project.Registry.Auth.Known.{authenticate_keeps, authenticated}
use ssle_project.Registry.Services.{
  peer_addr, registered_addresses, service_spec, store_spec, delete_spec, register, deregister,
}
use ssle_project.Registry.Catalog.{
  Listing, registered, deregistered, AgentCall, registration, deregistration, IsCall, handle_call,
  listed_after, handle_calls, listed_after_all, IsNode, Shows,
}
use ssle_project.Registry.Catalog.Steps.{store-Shows, delete-Shows}

module _ (e : Etcd) (h : IsHealthy e) where
  open h use {contents}

  module _ (locate : Bytes → Bytes → Bytes) where
    known-IsNode :
        (ctx : PeerInfo) (d : Listing) (s : e.Store) (node : NodeSchema)
        → Shows e h locate d s
        → (authenticate_agent e ctx s).0 ≡ ok node
        → IsNode e h locate node
    known-IsNode ctx d s node shown eq =
        let (dc, name, st) = authenticated e h ctx s node eq in shown.nodes dc name node st

    module _ (rt : RoundTrips e.spec_json) (split_host_port : Bytes → Option Bytes) where
      register-Shows :
          (ctx : PeerInfo) (req : RegisterServiceRequest) (d : Listing) (s : e.Store)
          → IsPart req.service
          → IsPart req.instance'
          → Shows e h locate d s
          → Shows e h locate
              (registered (register e split_host_port ctx req s).0 d)
              (register e split_host_port ctx req s).1
      unfolding register registered
      register-Shows ctx req d s ps pi shown =
          let IsShown : Outcome ServiceSpec × e.Store → Type 0 =
            λ r. Shows e h locate (registered r.0 d) r.1 in
          let kept = authenticate_keeps e h ctx s in
          let failed : (err : Error)
              → register e split_host_port ctx req s ≡ (fail err, s)
              → IsShown (register e split_host_port ctx req s) =
            λ err done. subst IsShown (sym done) shown in
          elim (Outcome-cases (authenticate_agent e ctx s).0) [
            | inl (node, known) ↦ elim (Option-cases (peer_addr ctx)) [
              | inl no_addr ↦ failed auth_failure (ground arith)
              | inr (addr, from) ↦
                  elim (Outcome-cases (registered_addresses split_host_port req.addresses addr)) [
                    | inl (addresses, chosen) ↦
                        let done : register e split_host_port ctx req s
                            ≡ store_spec e node (service_spec node req addresses) s =
                          ground arith in
                        subst IsShown (sym done) (
                          store-Shows e h locate rt node req addresses
                            (known-IsNode ctx d s node shown known) ps pi d s shown)
                    | inr (inl (err, p)) ↦ failed err (ground arith)
                    | inr (inr p) ↦
                        let done : register e split_host_port ctx req s ≡ (panic, s) =
                          ground arith in
                        subst IsShown (sym done) shown
                  ]
            ]
            | inr (inl (err, p)) ↦ failed err (ground arith)
            | inr (inr p) ↦
                let done : register e split_host_port ctx req s ≡ (panic, s) = ground arith in
                subst IsShown (sym done) shown
          ]

      deregister-Shows :
          (ctx : PeerInfo) (req : DeregisterServiceRequest) (d : Listing) (s : e.Store)
          → IsPart req.service
          → IsPart req.instance'
          → Shows e h locate d s
          → Shows e h locate
              (deregistered (authenticate_agent e ctx s).0 req d)
              (deregister e ctx req s).1
      unfolding deregister deregistered
      deregister-Shows ctx req d s ps pi shown =
          let IsShown : Outcome NodeSchema → e.Store → Type 0 =
            λ r s'. Shows e h locate (deregistered r req d) s' in
          let kept = authenticate_keeps e h ctx s in
          elim (Outcome-cases (authenticate_agent e ctx s).0) [
            | inl (node, known) ↦
                let done : (deregister e ctx req s).1
                    ≡ (delete_spec e node req.service req.instance' s).1 =
                  ground arith in
                subst (λ r. IsShown r (deregister e ctx req s).1) (sym known)
                  (subst (IsShown (ok node)) (sym done) (
                    delete-Shows e h locate node req.service req.instance'
                      (known-IsNode ctx d s node shown known) ps pi d s shown))
            | inr (inl (err, p)) ↦
                let done : (deregister e ctx req s).1 ≡ s = ground arith in
                subst (λ r. IsShown r (deregister e ctx req s).1) (sym p)
                  (subst (IsShown (fail err)) (sym done) shown)
            | inr (inr p) ↦
                let done : (deregister e ctx req s).1 ≡ s = ground arith in
                subst (λ r. IsShown r (deregister e ctx req s).1) (sym p)
                  (subst (IsShown panic) (sym done) shown)
          ]

      handle_call-Shows :
          (call : AgentCall) (d : Listing) (s : e.Store)
          → IsCall call
          → Shows e h locate d s
          → Shows e h locate
              (listed_after e split_host_port call s d)
              (handle_call e split_host_port call s)
      unfolding handle_call listed_after
      handle_call-Shows (registration ctx req) d s (ps, pi) shown =
          register-Shows ctx req d s ps pi shown
      handle_call-Shows (deregistration ctx req) d s (ps, pi) shown =
          deregister-Shows ctx req d s ps pi shown

      -- On a server that answers, with a coder of specs that reads back what it wrote: any sequence of
      -- registrations and deregistrations, of any agents and whether each succeeds, fails or panics,
      -- implements the inserting and erasing in a listing of services by place. If both indexes of the
      -- store show a listing before it, then both show the listing that it leaves. No name contains a
      -- slash, and `locate` gives the location of each node that is stored.
      pub handle_calls-Shows :
          (calls : List AgentCall) (d : Listing) (s : e.Store)
          → All IsCall calls
          → Shows e h locate d s
          → Shows e h locate
              (listed_after_all e split_host_port calls s d)
              (handle_calls e split_host_port calls s)
      unfolding handle_calls listed_after_all
      handle_calls-Shows [] d s are shown = shown
      handle_calls-Shows (call ∷ calls) d s are shown =
          handle_calls-Shows calls (listed_after e split_host_port call s d)
            (handle_call e split_host_port call s) are.1 (handle_call-Shows call d s are.0 shown)
