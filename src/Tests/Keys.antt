-- ===== src/Tests/Keys.antt =====
-- Ranges and keys at concrete inputs.
use native.Mathlib.Omega.{arith}
use ssle_project.Prelude.{◌≡◌, refl, true, false, [], ◌∷◌, ◌++◌, Bytes, codes, has_prefix, in_range}
use ssle_project.Keys.{prefix_end, split, bump}
use ssle_project.Keys.Range.{prefix_end-exact, prefix_end-overshoots}

prefix_end_slash : prefix_end (codes "svc/web/") ≡ codes "svc/web0"
unfolding prefix_end bump
prefix_end_slash = refl

split_slashes : split b'/' (codes "a/b") ≡ codes "a" ∷ codes "b" ∷ []
unfolding split
split_slashes = refl

prefix_end-exact_example :
    in_range (codes "svc" ++ b'/' ∷ []) (prefix_end (codes "svc" ++ b'/' ∷ [])) (codes "svc/web")
    ≡ has_prefix (codes "svc" ++ b'/' ∷ []) (codes "svc/web")
prefix_end-exact_example = prefix_end-exact (codes "svc") b'/' (codes "svc/web") (omega arith)

prefix_end-overshoots_example :
    (k : Bytes) × (in_range
        (codes "a" ++ b'b' ∷ 0xff ∷ [])
        (prefix_end (codes "a" ++ b'b' ∷ 0xff ∷ []))
        k
      ≡ true)
    × (has_prefix (codes "a" ++ b'b' ∷ 0xff ∷ []) k ≡ false)
prefix_end-overshoots_example = prefix_end-overshoots (codes "a") [] b'b' (omega arith) tt
