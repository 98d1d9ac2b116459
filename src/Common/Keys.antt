-- ===== src/Common/Keys.antt =====
-- Maps that hold the same keys in the same order, whatever their values.
use auxot.Common.Tests.{Comparable, is_some}
use auxot.Common.Lists.{length}
use auxot.Common.Assoc.{Assoc, keys, lookup, erase, insert}
use mathlib.Core.Path.{◌≡◌, refl}
use mathlib.Core.List.{[], ◌∷◌}
use native.Mathlib.Omega.{arith}

module _ {ℓ κ ρ} {K : Type ℓ} {V : Type κ} {W : Type ρ} ⦃e : Comparable K⦄ where
  pub is_some-lookup-keys :
      (k : K) (m : Assoc K V) (n : Assoc K W)
      → keys m ≡ keys n
      → is_some (lookup k m) ≡ is_some (lookup k n)
  unfolding lookup
  is_some-lookup-keys k [] [] h = refl
  is_some-lookup-keys k [] ((j, w) ∷ n) h = cc
  is_some-lookup-keys k ((i, v) ∷ m) [] h = cc
  is_some-lookup-keys k ((i, v) ∷ m) ((j, w) ∷ n) h =
      let head : i ≡ j = cc in
      let tail : keys m ≡ keys n = cc in rw head (ground (arith, is_some-lookup-keys k m n tail))

  pub length-keys : (m : Assoc K V) (n : Assoc K W) → keys m ≡ keys n → length m ≡ length n
  length-keys [] [] h = refl
  length-keys [] ((j, w) ∷ n) h = cc
  length-keys ((i, v) ∷ m) [] h = cc
  length-keys ((i, v) ∷ m) ((j, w) ∷ n) h =
      let tail : keys m ≡ keys n = cc in rw (length-keys m n tail)

  pub keys-insert :
      (k : K) (v : V) (w : W) (m : Assoc K V) (n : Assoc K W)
      → keys m ≡ keys n
      → keys (insert k v m) ≡ keys (insert k w n)
  unfolding insert
  keys-insert k v w [] [] h = refl
  keys-insert k v w [] ((j, y) ∷ n) h = cc
  keys-insert k v w ((i, x) ∷ m) [] h = cc
  keys-insert k v w ((i, x) ∷ m) ((j, y) ∷ n) h =
      let head : i ≡ j = cc in
      let tail : keys m ≡ keys n = cc in rw head (ground (arith, keys-insert k v w m n tail))

  pub keys-erase :
      (k : K) (m : Assoc K V) (n : Assoc K W)
      → keys m ≡ keys n
      → keys (erase k m) ≡ keys (erase k n)
  unfolding erase
  keys-erase k [] [] h = refl
  keys-erase k [] ((j, y) ∷ n) h = cc
  keys-erase k ((i, x) ∷ m) [] h = cc
  keys-erase k ((i, x) ∷ m) ((j, y) ∷ n) h =
      let head : i ≡ j = cc in
      let tail : keys m ≡ keys n = cc in rw head (ground (arith, keys-erase k m n tail))
