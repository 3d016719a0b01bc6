-- ===== src/Registry/Catalog/Places.antt =====
-- The keys of places.
use ssle_project.Prelude.{
  ◌≡◌, ◌≢◌, sym, ap, ◌∙◌, true, false, List, [], ◌∷◌, ◌++◌, Bytes, codes, equal, equal_iff,
  equal_refl, Bool-cases, inl, inr, arith,
}
use ssle_project.Keys.{under, service_key, dc_service_key, split, push_byte}
use ssle_project.Keys.Parts.{IsPart, split-part, split-parts}
use ssle_project.Registry.Catalog.{Place, same_place}

abbrev pub AreParts : Place → Type 0
AreParts p = IsPart p.datacenter × IsPart p.node × IsPart p.service × IsPart p.instance'

split-dc_service_key :
    (p : Place)
    → AreParts p
    → split b'/' (dc_service_key p.datacenter p.node p.service p.instance')
      ≡ codes "dcsvc" ∷ p.datacenter ∷ p.node ∷ p.service ∷ p.instance' ∷ []
unfolding split push_byte dc_service_key
split-dc_service_key p h =
    let base = under (codes "dcsvc") p.datacenter in
    split-parts base p.node p.service p.instance' h.1 h.2 h.3
    ∙ ap (λ xs. xs ++ p.node ∷ p.service ∷ p.instance' ∷ [])
        (split-part (codes "dcsvc") p.datacenter h.0)

split-service_key :
    (p : Place) (location : Bytes)
    → AreParts p
    → IsPart location
    → split b'/' (service_key p.service location p.datacenter p.node p.instance')
      ≡ codes "svc" ∷ p.service ∷ location ∷ p.datacenter ∷ p.node ∷ p.instance' ∷ []
unfolding split push_byte service_key
split-service_key p location h l =
    let base = under (under (codes "svc") p.service) location in
    split-parts base p.datacenter p.node p.instance' h.0 h.1 h.3
    ∙ ap (λ xs. xs ++ p.datacenter ∷ p.node ∷ p.instance' ∷ [])
        (split-part (under (codes "svc") p.service) location l
          ∙ ap (λ xs. xs ++ location ∷ []) (split-part (codes "svc") p.service h.2))

same_place_iff :
    (p q : Place)
    → p.datacenter ≡ q.datacenter
    → p.node ≡ q.node
    → p.service ≡ q.service
    → p.instance' ≡ q.instance'
    → same_place p q ≡ true
unfolding same_place
same_place_iff p q a b c d = ground (
  arith,
  equal_iff p.datacenter q.datacenter,
  equal_iff p.node q.node,
  equal_iff p.service q.service,
  equal_iff p.instance' q.instance',
)

pub same_place_lem :
    (p q : Place)
    → same_place p q ≡ true
    → (p.datacenter ≡ q.datacenter)
      × (p.node ≡ q.node)
      × (p.service ≡ q.service)
      × (p.instance' ≡ q.instance')
unfolding same_place
same_place_lem p q h = ground (
  arith,
  equal_iff p.datacenter q.datacenter,
  equal_iff p.node q.node,
  equal_iff p.service q.service,
  equal_iff p.instance' q.instance',
)

differ :
    {ns : Bytes} (p q : Place)
    → ◌≡◌ {A = List Bytes}
        (ns ∷ p.datacenter ∷ p.node ∷ p.service ∷ p.instance' ∷ [])
        (ns ∷ q.datacenter ∷ q.node ∷ q.service ∷ q.instance' ∷ [])
    → same_place p q ≢ false
differ p q e other = ground (arith, same_place_iff p q)

pub equal-dc_service_key :
    (p q : Place)
    → AreParts p
    → AreParts q
    → equal
        (dc_service_key p.datacenter p.node p.service p.instance')
        (dc_service_key q.datacenter q.node q.service q.instance')
      ≡ same_place p q
equal-dc_service_key p q h h' =
    let k = dc_service_key p.datacenter p.node p.service p.instance' in
    let k' = dc_service_key q.datacenter q.node q.service q.instance' in
    elim (Bool-cases (same_place p q)) [
      | inl same ↦
          let e = same_place_lem p q same in
          let here : k ≡ k' = cc in rw same (rw here (equal_refl k'))
      | inr other ↦ elim (Bool-cases (equal k k')) [
        | inr apart ↦ apart ∙ sym other
        | inl same ↦
            let parts =
              sym (split-dc_service_key p h)
              ∙ ap (split b'/') ((equal_iff k k').0 same)
              ∙ split-dc_service_key q h' in
            absurd (differ p q parts other)
      ]
    ]

differ_with :
    {ns : Bytes} (p q : Place) (location location' : Bytes)
    → ◌≡◌ {A = List Bytes}
        (ns ∷ p.service ∷ location ∷ p.datacenter ∷ p.node ∷ p.instance' ∷ [])
        (ns ∷ q.service ∷ location' ∷ q.datacenter ∷ q.node ∷ q.instance' ∷ [])
    → same_place p q ≢ false
differ_with p q location location' e other = ground (arith, same_place_iff p q)

pub equal-service_key :
    (p q : Place) (location location' : Bytes)
    → AreParts p
    → AreParts q
    → IsPart location
    → IsPart location'
    → (same_place p q ≡ true → location ≡ location')
    → equal
        (service_key p.service location p.datacenter p.node p.instance')
        (service_key q.service location' q.datacenter q.node q.instance')
      ≡ same_place p q
equal-service_key p q location location' h h' l l' located =
    let k = service_key p.service location p.datacenter p.node p.instance' in
    let k' = service_key q.service location' q.datacenter q.node q.instance' in
    elim (Bool-cases (same_place p q)) [
      | inl same ↦
          let e = same_place_lem p q same in
          let at = located same in let here : k ≡ k' = cc in rw same (rw here (equal_refl k'))
      | inr other ↦ elim (Bool-cases (equal k k')) [
        | inr apart ↦ apart ∙ sym other
        | inl same ↦
            let parts =
              sym (split-service_key p location h l)
              ∙ ap (split b'/') ((equal_iff k k').0 same)
              ∙ split-service_key q location' h' l' in
            absurd (differ_with p q location location' parts other)
      ]
    ]
