-- ===== src/Queue/Sweeper/Pending.antt =====
-- The list of pending entries under XCLAIM and XGROUP DELCONSUMER: who holds an entry afterwards.
use auxot.Common.{
  ℕ, zero, suc, ◌≡◌, refl, inl, inr, none, some, List, [], ◌∷◌, Text, true, false, text_comparable,
  text_beq, text_beq_iff, take, arith, if◌then◌else◌, Bool-cases, equal_refl,
}
use auxot.Common.Assoc.{lookup, IsMap}
use auxot.Queue.Redis.{Pel, claimed, dropped, held, contains}

pub lookup-claimed :
    (ids : List Text) (target : Text) (m : Pel) (i c : Text)
    → lookup i m ≡ some c
    → lookup i (claimed ids target m) ≡ some (if contains ids i then target else c)
unfolding lookup claimed
lookup-claimed ids target [] i c h = cc
lookup-claimed ids target ((j, d) ∷ m) i c h =
    ground (arith, text_beq_iff j i, lookup-claimed ids target m i c)

pub lookup-claimed-none :
    (ids : List Text) (target : Text) (m : Pel) (i : Text)
    → lookup i m ≡ none
    → lookup i (claimed ids target m) ≡ none
unfolding lookup claimed
lookup-claimed-none ids target [] i h = refl
lookup-claimed-none ids target ((j, d) ∷ m) i h = ground (arith, lookup-claimed-none ids target m i)

pub claimed-IsMap :
    (ids : List Text) (target : Text) (m : Pel) → IsMap m → IsMap (claimed ids target m)
unfolding claimed
claimed-IsMap ids target [] u = tt
claimed-IsMap ids target ((j, d) ∷ m) u =
    (lookup-claimed-none ids target m j u.0, claimed-IsMap ids target m u.1)

pub lookup-dropped_ne :
    (d : Text) (m : Pel) (i c : Text)
    → lookup i m ≡ some c
    → text_beq c d ≡ false
    → lookup i (dropped d m) ≡ some c
unfolding lookup dropped
lookup-dropped_ne d [] i c h ne = cc
lookup-dropped_ne d ((j, e) ∷ m) i c h ne = ground (arith, lookup-dropped_ne d m i c)

pub lookup-dropped-none :
    (d : Text) (m : Pel) (i : Text) → lookup i m ≡ none → lookup i (dropped d m) ≡ none
unfolding lookup dropped
lookup-dropped-none d [] i h = refl
lookup-dropped-none d ((j, e) ∷ m) i h = ground (arith, lookup-dropped-none d m i)

pub lookup-dropped_self :
    (d : Text) (m : Pel) (i : Text) → IsMap m → lookup i m ≡ some d → lookup i (dropped d m) ≡ none
unfolding lookup dropped
lookup-dropped_self d [] i u h = refl
lookup-dropped_self d ((j, e) ∷ m) i u h = elim (Bool-cases (text_beq j i)) [
  | inl hit ↦
      let same : e ≡ d = ground arith in
      let gone : lookup i m ≡ none = rw (← (text_beq_iff j i).0 hit) u.0 in
      rw (same, equal_refl d) (lookup-dropped-none d m i gone)
  | inr miss ↦
      let rest : lookup i (dropped d m) ≡ none = lookup-dropped_self d m i u.1 (rw miss at h) in
      elim (Bool-cases (text_beq e d)) [ inl out ↦ rw out rest | inr stays ↦ rw (stays, miss) rest ]
]

pub dropped-IsMap : (d : Text) (m : Pel) → IsMap m → IsMap (dropped d m)
unfolding dropped
dropped-IsMap d [] u = tt
dropped-IsMap d ((j, e) ∷ m) u = elim (Bool-cases (text_beq e d)) [
  | inl out ↦ rw out (dropped-IsMap d m u.1)
  | inr stays ↦ rw stays (lookup-dropped-none d m j u.0, dropped-IsMap d m u.1)
]

-- An entry that a consumer holds is among its entries, and no other entry is.
pub held-of_lookup :
    (d : Text) (m : Pel) (i : Text) → lookup i m ≡ some d → contains (held d m) i ≡ true
unfolding lookup held
held-of_lookup d [] i h = cc
held-of_lookup d ((j, e) ∷ m) i h =
    ground (arith, text_beq_iff j i, text_beq_iff e d, equal_refl d, held-of_lookup d m i)

held_unknown : (d : Text) (m : Pel) (i : Text) → lookup i m ≡ none → contains (held d m) i ≡ false
unfolding lookup held
held_unknown d [] i h = refl
held_unknown d ((j, e) ∷ m) i h = ground (arith, held_unknown d m i)

pub held_other :
    (d : Text) (m : Pel) (i c : Text)
    → IsMap m
    → lookup i m ≡ some c
    → text_beq c d ≡ false
    → contains (held d m) i ≡ false
unfolding lookup held
held_other d [] i c u h ne = refl
held_other d ((j, e) ∷ m) i c u h ne = elim (Bool-cases (text_beq j i)) [
  | inl hit ↦
      let same : e ≡ c = ground arith in
      let gone : lookup i m ≡ none = rw (← (text_beq_iff j i).0 hit) u.0 in
      rw (same, ne) (held_unknown d m i gone)
  | inr miss ↦
      let rest : contains (held d m) i ≡ false = held_other d m i c u.1 (rw miss at h) ne in
      ground arith
]

pub contains-take :
    (n : ℕ) (xs : List Text) (i : Text) → contains xs i ≡ false → contains (take n xs) i ≡ false
contains-take zero xs i h = refl
contains-take (suc n) [] i h = refl
contains-take (suc n) (x ∷ xs) i h = ground (arith, contains-take n xs i)
