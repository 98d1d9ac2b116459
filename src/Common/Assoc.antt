-- ===== src/Common/Assoc.antt =====
-- Go's maps as association lists. The order of the list is the order in which `range` visits the
-- entries, which Go leaves open: what is proved for every list holds for every such order.
use auxot.Common.Tests.{Comparable, ◌==◌, if◌then◌else◌, Bool-cases, equal_refl, is_some}
use auxot.Common.Lists.{length, In, here, there}
use Prim.Native.Nat.{suc}
use mathlib.Core.Bool.{false}
use mathlib.Core.Path.{◌≡◌, refl, subst}
use mathlib.Core.Logic.{◌≢◌, inl, inr}
use mathlib.Core.Option.{Option, none, some}
use mathlib.Core.List.{List, [], ◌∷◌, map}
use native.Mathlib.Omega.{arith}

abbrev pub Assoc {ℓ κ} : Type ℓ → Type κ → Type (ℓ ⊔ κ)
Assoc K V = List (K × V)

abbrev pub keys {ℓ κ} : {K : Type ℓ} {V : Type κ} → Assoc K V → List K
keys m = map (λ p. p.0) m

module _ {ℓ κ} {K : Type ℓ} {V : Type κ} ⦃e : Comparable K⦄ where
  -- `v, ok := m[k]`
  unfoldable pub lookup : K → Assoc K V → Option V
  lookup k [] = none
  lookup k ((j, v) ∷ m) = if j == k then some v else lookup k m

  -- `delete(m, k)`
  unfoldable pub erase : K → Assoc K V → Assoc K V
  erase k [] = []
  erase k ((j, w) ∷ m) = if j == k then m else (j, w) ∷ erase k m

  -- `m[k] = v`
  unfoldable pub insert : K → V → Assoc K V → Assoc K V
  insert k v [] = (k, v) ∷ []
  insert k v ((j, w) ∷ m) = if j == k then (k, v) ∷ m else (j, w) ∷ insert k v m

  -- A map holds each key once.
  abbrev pub IsMap : Assoc K V → Type κ
  IsMap [] = Unit
  IsMap ((k, v) ∷ m) = (lookup k m ≡ none) × IsMap m

  pub lookup-insert :
      (key other : K) (value : V) (m : Assoc K V)
      → lookup other (insert key value m) ≡ (if key == other then some value else lookup other m)
  unfolding lookup insert
  lookup-insert key other value [] = refl
  lookup-insert key other value ((i, w) ∷ rest) = ground (
    arith,
    lookup-insert key other value rest,
    e.equal_iff i key,
    e.equal_iff i other,
    e.equal_iff key other,
  )

  pub lookup-insert_self : (k : K) (v : V) (m : Assoc K V) → lookup k (insert k v m) ≡ some v
  lookup-insert_self k v m = ground (arith, lookup-insert k k v m, equal_refl k)

  pub lookup-erase :
      (k j : K) (m : Assoc K V)
      → IsMap m
      → lookup j (erase k m) ≡ (if k == j then none else lookup j m)
  unfolding lookup erase
  lookup-erase k j [] h = ground arith
  lookup-erase k j ((i, w) ∷ m) h =
      ground (arith, e.equal_iff k j, e.equal_iff i k, e.equal_iff i j, lookup-erase k j m h.1, h.0)

  pub insert-IsMap : (k : K) (v : V) (m : Assoc K V) → IsMap m → IsMap (insert k v m)
  unfolding lookup insert
  insert-IsMap k v [] h = (refl, tt)
  insert-IsMap k v ((i, w) ∷ m) h =
      ground
        (arith, e.equal_iff i k, e.equal_iff k i, lookup-insert k i v m, insert-IsMap k v m h.1)

  pub erase-IsMap : (k : K) (m : Assoc K V) → IsMap m → IsMap (erase k m)
  unfolding lookup erase
  erase-IsMap k [] h = tt
  erase-IsMap k ((i, w) ∷ m) h =
      ground (arith, e.equal_iff i k, e.equal_iff k i, lookup-erase k i m h.1, erase-IsMap k m h.1)

  pub length-insert :
      (k : K) (v : V) (m : Assoc K V)
      → length (insert k v m) ≡ (if is_some (lookup k m) then length m else suc (length m))
  unfolding lookup insert
  length-insert k v [] = refl
  length-insert k v ((i, w) ∷ m) = ground (arith, length-insert k v m)

  pub length-erase :
      (k : K) (m : Assoc K V)
      → length m ≡ (if is_some (lookup k m) then suc (length (erase k m)) else length (erase k m))
  unfolding lookup erase
  length-erase k [] = refl
  length-erase k ((i, w) ∷ m) = ground (arith, length-erase k m)

  pub erase-absent : (k : K) (m : Assoc K V) → lookup k m ≡ none → erase k m ≡ m
  unfolding lookup erase
  erase-absent k [] h = refl
  erase-absent k ((i, w) ∷ m) h = ground (arith, erase-absent k m)

  -- Every entry has the property.
  abbrev pub Each {ρ} : (K → V → Type ρ) → Assoc K V → Type (ℓ ⊔ κ ⊔ ρ)
  Each P m = (k : K) (v : V) → lookup k m ≡ some v → P k v

  pub Each-nil {ρ} : (P : K → V → Type ρ) → Each P []
  unfolding lookup
  Each-nil P k v h = cc

  pub Each-cons {ρ} :
      (P : K → V → Type ρ) (k : K) (v : V) (m : Assoc K V) → P k v → Each P m → Each P ((k, v) ∷ m)
  unfolding lookup
  Each-cons P k v m pv all j w h = elim (Bool-cases (k == j)) [
    | inl hit ↦
        let same : v ≡ w = ground arith in
        subst (λ i. P i w) ((e.equal_iff k j).0 hit) (subst (P k) same pv)
    | inr miss ↦ all j w (rw miss at h)
  ]

  pub insert-Each {ρ} :
      (P : K → V → Type ρ) (k : K) (v : V) (m : Assoc K V)
      → P k v
      → Each P m
      → Each P (insert k v m)
  insert-Each P k v m pv all j w h = elim (Bool-cases (k == j)) [
    | inl hit ↦
        let same : v ≡ w = ground (arith, lookup-insert k j v m) in
        subst (λ i. P i w) ((e.equal_iff k j).0 hit) (subst (P k) same pv)
    | inr miss ↦ all j w (ground (arith, lookup-insert k j v m))
  ]

  pub erase-Each {ρ} :
      (P : K → V → Type ρ) (k : K) (m : Assoc K V) → IsMap m → Each P m → Each P (erase k m)
  erase-Each P k m u all j w h = all j w (ground (arith, lookup-erase k j m u))

  -- What `range` visits is what a lookup finds.
  pub In-of_lookup : (k : K) (v : V) (m : Assoc K V) → lookup k m ≡ some v → In (k, v) m
  unfolding lookup
  In-of_lookup k v [] h = cc
  In-of_lookup k v ((j, w) ∷ m) h = elim (Bool-cases (j == k)) [
    | inl hit ↦ here (ground (arith, e.equal_iff j k))
    | inr miss ↦ there (In-of_lookup k v m (ground arith))
  ]

  lookup-ne-none : (k : K) (v : V) (m : Assoc K V) → In (k, v) m → lookup k m ≢ none
  unfolding lookup
  lookup-ne-none k v [] i = elim i [ ]
  lookup-ne-none k v ((j, w) ∷ m) (here h) = ground (arith, equal_refl k)
  lookup-ne-none k v ((j, w) ∷ m) (there i) = ground (arith, lookup-ne-none k v m i)

  pub lookup-of_In : (k : K) (v : V) (m : Assoc K V) → IsMap m → In (k, v) m → lookup k m ≡ some v
  unfolding lookup
  lookup-of_In k v [] u i = elim i [ ]
  lookup-of_In k v ((j, w) ∷ m) u (here h) = ground (arith, equal_refl k)
  lookup-of_In k v ((j, w) ∷ m) u (there i) =
      ground (arith, e.equal_iff j k, lookup-of_In k v m u.1 i, lookup-ne-none k v m i)

  pub insert-insert : (k : K) (v w : V) (m : Assoc K V) → insert k w (insert k v m) ≡ insert k w m
  unfolding insert
  insert-insert k v w [] = ground (arith, equal_refl k)
  insert-insert k v w ((j, x) ∷ m) = ground (arith, equal_refl k, insert-insert k v w m)

  pub insert-of_lookup : (k : K) (v : V) (m : Assoc K V) → lookup k m ≡ some v → insert k v m ≡ m
  unfolding lookup insert
  insert-of_lookup k v [] h = cc
  insert-of_lookup k v ((j, x) ∷ m) h = ground (arith, e.equal_iff j k, insert-of_lookup k v m)

  pub erase-insert :
      (k : K) (v : V) (m : Assoc K V) → lookup k m ≡ none → erase k (insert k v m) ≡ m
  unfolding lookup insert erase
  erase-insert k v [] h = ground (arith, equal_refl k)
  erase-insert k v ((j, x) ∷ m) h = ground (arith, erase-insert k v m)

  pub erase-insert_other :
      (k j : K) (v : V) (m : Assoc K V)
      → (j == k) ≡ false
      → erase j (insert k v m) ≡ insert k v (erase j m)
  unfolding insert erase
  erase-insert_other k j v [] h = ground (arith, e.equal_iff k j, e.equal_iff j k)
  erase-insert_other k j v ((i, x) ∷ m) h = ground (
    arith,
    e.equal_iff i k,
    e.equal_iff i j,
    e.equal_iff k j,
    e.equal_iff j k,
    erase-insert_other k j v m,
  )

  pub lookup-erase_absent :
      (k j : K) (m : Assoc K V) → lookup k m ≡ none → lookup k (erase j m) ≡ none
  unfolding lookup erase
  lookup-erase_absent k j [] h = refl
  lookup-erase_absent k j ((i, v) ∷ m) h = ground (arith, lookup-erase_absent k j m)
