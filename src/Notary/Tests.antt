-- ===== src/Notary/Tests.antt =====
-- The theorems on the Merkle tree at a set of two identifiers, with identities for the codec and the hash.
use arky_foundation.Notary.Inclusion.{root_of-perm, verify_inclusion-merkle_root}
use arky_foundation.Platform.{Bytes}
use arky_foundation.Notary.Merkle.{merkle_root, verify_inclusion, root_of}
use arky_foundation.Common.{codes, ◌≡◌, List, Text, some, ◌∷◌, Option, true, refl, []}
use mathlib.Core.List.{Memᴰ}
use mathlib.Core.List.Perm

abbrev same : Bytes → Bytes
same b = b

abbrev decoded : Text → Option Bytes
decoded s = some s

abbrev two : List Text
two = codes "b" ∷ codes "a" ∷ []

abbrev root : Text
root = 18 ∷ 32 ∷ codes "ab"

run : merkle_root same same decoded two ≡ some root
unfolding merkle_root
run = refl

verify_inclusion-merkle_root_example :
    (path : List Text) × (verify_inclusion same same decoded (codes "b") path root ≡ some true)
verify_inclusion-merkle_root_example =
    verify_inclusion-merkle_root same same decoded (λ b. refl) two (codes "b") root (Memᴰ.head refl)
      run

root_of-perm_example :
    (top : Bytes) × (root_of same (codes "b" ∷ codes "a" ∷ []) ≡ some top)
    × (root_of same (codes "a" ∷ codes "b" ∷ []) ≡ some top)
root_of-perm_example =
    root_of-perm same (codes "b") (codes "a" ∷ []) (codes "a" ∷ codes "b" ∷ [])
      (Perm.swap (codes "a") (codes "b") [])
