-- ===== src/Registry/Uncertified.antt =====
-- The calls of the agent API and of the node API over a connection that shows no certificate.
use ssle_project.Prelude.{◌≢◌, List, ◌∷◌, Bytes}
use ssle_project.Etcd.{Etcd}
use ssle_project.Registry.Auth.{Certificate, PeerInfo, tls_info}

-- No certificate comes with the connection.
abbrev pub ShowsNone : PeerInfo → Type 0
ShowsNone ctx =
    (cert : Certificate) (certs : List Certificate) (addr : Bytes)
    → ctx ≢ tls_info (cert ∷ certs) addr
