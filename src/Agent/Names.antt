-- ===== src/Agent/Names.antt =====
-- The instance names that the agent registers.
use ssle_project.Prelude.{
  ◌≤◌, ◌≡◌, refl, some, Option-cases, inl, inr, List, [], ◌∷◌, map, Bytes, arith, ◌==◌,
  if◌then◌else◌, All,
}
use ssle_project.Schemas.{PortSpec}
use ssle_project.Keys.Parts.{IsPart}
use ssle_project.Agent.{instance_name, replaced, port_specs, split_port, port_spec, first_binding}
use ssle_project.Agent.Numbers.{max_uint16, value_of-parse_uint}

map-replaced-IsPart : (s : Bytes) → IsPart (map replaced s)
map-replaced-IsPart [] = tt
map-replaced-IsPart (c ∷ s) = (ground arith, map-replaced-IsPart s)

-- The instance name of every container is free of slashes.
pub instance_name-IsPart : (name : Bytes) → IsPart (instance_name name)
unfolding instance_name
instance_name-IsPart [] = tt
instance_name-IsPart (c ∷ name) = map-replaced-IsPart (if c == b'/' then name else c ∷ name)

map-replaced : (s : Bytes) → IsPart s → map replaced s ≡ s
map-replaced [] h = refl
map-replaced (c ∷ s) h = ground (arith, map-replaced s h.1)

-- Docker's name of a container is a slash and then the name that its events carry: if that name has
-- no slash of its own, the instance that is registered is the name that is deregistered.
pub instance_name_lem : (name : Bytes) → IsPart name → instance_name (b'/' ∷ name) ≡ name
unfolding instance_name
instance_name_lem name h = map-replaced name h

abbrev pub HasPort : PortSpec → Type 0
HasPort spec = spec.port ≤ max_uint16

port_spec-HasPort :
    (name protocol : Bytes) (bind : List Bytes) → HasPort (port_spec name protocol bind)
unfolding port_spec
port_spec-HasPort name protocol bind = value_of-parse_uint (first_binding name bind)

pub port_specs-HasPort :
    (ports : List (Bytes × List Bytes)) (specs : List PortSpec)
    → port_specs ports ≡ some specs
    → All HasPort specs
unfolding port_specs
port_specs-HasPort [] specs eq = go specs eq
  where
    go : (specs : List PortSpec) → some [] ≡ some specs → All HasPort specs
    go [] e = tt
    go (x ∷ xs) e = cc
port_specs-HasPort ((port, bind) ∷ ports) specs eq = elim (Option-cases (split_port port)) [
  | inl bad ↦ ground arith
  | inr ((name, protocol), split) ↦ elim (Option-cases (port_specs ports)) [
    | inl bad ↦ ground arith
    | inr (rest, parsed_rest) ↦
        let same : port_spec name protocol bind ∷ rest ≡ specs = ground arith in
        rw (← same)
          (port_spec-HasPort name protocol bind, port_specs-HasPort ports rest parsed_rest)
  ]
]
