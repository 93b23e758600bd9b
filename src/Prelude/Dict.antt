-- ===== src/Prelude/Dict.antt =====
-- A hash map as an association list. Where the program takes the first match of an iteration, the
-- first of the list is taken.
use mathlib.Core.Path.{◌≡◌, refl, transport}
use mathlib.Core.Logic.{◌≢◌, inl, inr}
use mathlib.Core.Bool.{Bool, true, false}
use mathlib.Core.List.{List, [], ◌∷◌, map}
use mathlib.Core.Option.{Option, none, some}
use native.Mathlib.Omega.{arith}
use ledgerly.Prelude.Tests.{Eq, if◌then◌else◌, Bool-cases}
use ledgerly.Prelude.Lists.{any, All}

abbrev pub Dict {ℓ κ} : Type ℓ → Type κ → Type (ℓ ⊔ κ)
Dict K V = List (K × V)

-- `map.values()`
abbrev pub values {ℓ κ} : {K : Type ℓ} {V : Type κ} → Dict K V → List V
values = map (λ e. e.1)

pub beq_self {ℓ} : {K : Type ℓ} ⦃e : Eq K⦄ (k : K) → e.beq k k ≡ true
beq_self ⦃e⦄ k = (e.beq_iff k k).1 refl

module _ {ℓ κ} {K : Type ℓ} {V : Type κ} ⦃e : Eq K⦄ where
  -- `map.get(k)`
  unfoldable pub lookup : K → Dict K V → Option V
  lookup k [] = none
  lookup k ((j, v) ∷ d) = if e.beq j k then some v else lookup k d

  -- `map.contains_key(k)`
  abbrev pub contains : K → Dict K V → Bool
  contains k d = elim (lookup k d) [ none ↦ false | some _ ↦ true ]

  -- `map.insert(k, v)`
  unfoldable pub insert : K → V → Dict K V → Dict K V
  insert k v [] = (k, v) ∷ []
  insert k v ((j, w) ∷ d) = if e.beq j k then (j, v) ∷ d else (j, w) ∷ insert k v d

  -- `map.remove(k)`
  unfoldable pub erase : K → Dict K V → Dict K V
  erase k [] = []
  erase k ((j, w) ∷ d) = if e.beq j k then erase k d else (j, w) ∷ erase k d

  pub lookup-insert :
      (k j : K) (v : V) (d : Dict K V)
      → lookup j (insert k v d) ≡ (if e.beq k j then some v else lookup j d)
  unfolding lookup insert
  lookup-insert k j v [] = refl
  lookup-insert k j v ((i, w) ∷ d) =
      ground (arith, e.beq_iff k j, e.beq_iff i k, e.beq_iff i j, lookup-insert k j v d)

  pub lookup-insert_self : (k : K) (v : V) (d : Dict K V) → lookup k (insert k v d) ≡ some v
  lookup-insert_self k v d = simp (lookup-insert, beq_self)

  pub lookup-insert_ne :
      (k j : K) (v : V) (d : Dict K V) → k ≢ j → lookup j (insert k v d) ≡ lookup j d
  lookup-insert_ne k j v d h = ground (arith, lookup-insert k j v d, e.beq_iff k j)

  pub lookup-erase :
      (k j : K) (d : Dict K V) → lookup j (erase k d) ≡ (if e.beq k j then none else lookup j d)
  unfolding lookup erase
  lookup-erase k j [] = ground arith
  lookup-erase k j ((i, w) ∷ d) =
      ground (arith, e.beq_iff k j, e.beq_iff i k, e.beq_iff i j, lookup-erase k j d)

  -- What a scan of the values rules out holds of no entry.
  pub lookup_not_any :
      (p : V → Bool) (k : K) (d : Dict K V) (v : V)
      → any p (values d) ≡ false
      → lookup k d ≡ some v
      → p v ≡ false
  unfolding lookup
  lookup_not_any p k [] v h q = cc
  lookup_not_any p k ((j, w) ∷ d) v h q = ground (arith, lookup_not_any p k d v)

module _ {ℓ κ ρ} {K : Type ℓ} {V : Type κ} (P : V → Type ρ) ⦃e : Eq K⦄ where
  -- What holds of every value holds of the one that is found.
  pub lookup-All : (k : K) (d : Dict K V) (v : V) → All P (values d) → lookup k d ≡ some v → P v
  unfolding lookup
  lookup-All k [] v h q = absurd (cc)
  lookup-All k ((j, w) ∷ d) v h q = elim (Bool-cases (e.beq j k)) [
    | inl here ↦ let same : w ≡ v = ground arith in transport (λ i. P (same i)) h.0
    | inr there ↦ lookup-All k d v h.1 (rw there at q)
  ]

  -- A value that is inserted joins the others.
  pub insert-All :
      (k : K) (v : V) (d : Dict K V) → P v → All P (values d) → All P (values (insert k v d))
  unfolding insert
  insert-All k v [] p h = (p, tt)
  insert-All k v ((j, w) ∷ d) p h = elim (Bool-cases (e.beq j k)) [
    | inl here ↦ rw here (p, h.1)
    | inr there ↦ rw there (h.0, insert-All k v d p h.1)
  ]
