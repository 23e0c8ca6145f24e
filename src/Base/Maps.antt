-- ===== src/Base/Maps.antt =====
-- Finite maps as association lists: `HashMap` and `BTreeMap` of the standard library. The list
-- order stands for the iteration order.
use Prim.Native.Nat.{ℕ, ◌+◌, ◌≤◌}
use mathlib.Core.Path.{◌≡◌, refl, sym, ap, ◌∙◌, subst, subst₂}
use mathlib.Core.Bool.{Bool, false}
use mathlib.Core.Logic.{inl, inr}
use mathlib.Core.Option.{Option, none, some}
use mathlib.Core.List.{List, [], ◌∷◌, map}
use native.Mathlib.Omega.{arith}
use link_mesh.Base.Tests.{ltb, if◌then◌else◌, Bool-cases}
use link_mesh.Base.Lists.{length, retain, All, any}
use link_mesh.Base.Keys.{Eq, ◌==◌, nat_eq}

abbrev pub Map {ℓ κ} : Type ℓ → Type κ → Type (ℓ ⊔ κ)
Map K V = List (K × V)

module _ {ℓ κ} {K : Type ℓ} {V : Type κ} ⦃e : Eq K⦄ where
  unfoldable pub get : Map K V → K → Option V
  get [] k = none
  get ((j, v) ∷ m) k = if j == k then some v else get m k

  unfoldable pub remove : Map K V → K → Map K V
  remove [] k = []
  remove ((j, v) ∷ m) k = let rest = remove m k in if j == k then rest else (j, v) ∷ rest

  unfoldable pub insert : Map K V → K → V → Map K V
  insert [] k v = (k, v) ∷ []
  insert ((j, w) ∷ m) k v = let rest = insert m k v in if j == k then (k, v) ∷ m else (j, w) ∷ rest

  pub get-insert :
      (m : Map K V) (k : K) (v : V) (j : K)
      → get (insert m k v) j ≡ (if k == j then some v else get m j)
  unfolding get insert
  get-insert [] k v j = refl
  get-insert ((i, w) ∷ m) k v j =
      ground (arith, e.beq_iff i k, e.beq_iff i j, e.beq_iff k j, get-insert m k v j)

  pub get-remove : (m : Map K V) (k j : K) → get (remove m k) j ≡ (if k == j then none else get m j)
  unfolding get remove
  get-remove [] k j = ground arith
  get-remove ((i, w) ∷ m) k j =
      ground (arith, e.beq_iff i k, e.beq_iff i j, e.beq_iff k j, get-remove m k j)

  pub length-insert : (m : Map K V) (k : K) (v : V) → length (insert m k v) ≤ length m + 1
  unfolding insert
  length-insert [] k v = omega arith
  length-insert ((i, w) ∷ m) k v = ground (arith, length-insert m k v)

  pub length-remove : (m : Map K V) (k : K) → length (remove m k) ≤ length m
  unfolding remove
  length-remove [] k = omega arith
  length-remove ((i, w) ∷ m) k = ground (arith, length-remove m k)

  pub length-remove_present :
      (m : Map K V) (k : K) (v : V) → get m k ≡ some v → length (remove m k) + 1 ≤ length m
  unfolding get remove
  length-remove_present [] k v h = cc
  length-remove_present ((i, w) ∷ m) k v h =
      ground (arith, length-remove m k, length-remove_present m k v)

-- A predicate on all entries.
module _ {ℓ κ μ} {K : Type ℓ} {V : Type κ} ⦃e : Eq K⦄ (P : K → V → Type μ) where
  pub All-get : (m : Map K V) (k : K) (v : V) → All (λ x. P x.0 x.1) m → get m k ≡ some v → P k v
  unfolding get
  All-get [] k v h g = cc
  All-get ((j, w) ∷ m) k v h g = elim (Bool-cases (j == k)) [
    | inl same ↦
        let same_value : w ≡ v = (let g' : some w ≡ some v = rw same at g in cc) in
        subst₂ P ((e.beq_iff j k).0 same) same_value h.0
    | inr other ↦ All-get m k v h.1 (rw other at g)
  ]

-- `retain` by a test on the keys.
module _ {ℓ κ} {K : Type ℓ} {V : Type κ} ⦃e : Eq K⦄ (p : K → Bool) where
  pub get-retain :
      (m : Map K V) (k : K) → get (retain (λ x. p x.0) m) k ≡ (if p k then get m k else none)
  unfolding get
  get-retain [] k = ground arith
  get-retain ((j, v) ∷ m) k = elim (Bool-cases (p j)) [
    | inl in_j ↦ rw in_j (elim (Bool-cases (j == k)) [
      | inl same ↦ rw (same, sym (ap p ((e.beq_iff j k).0 same)) ∙ in_j)
      | inr other ↦ rw other (get-retain m k)
    ])
    | inr no_j ↦
        rw (no_j, get-retain m k)
          (elim (Bool-cases (j == k)) [
            | inl same ↦ rw (same, sym (ap p ((e.beq_iff j k).0 same)) ∙ no_j)
            | inr other ↦ rw other
          ])
  ]

pub get-empty {ℓ κ} : {K : Type ℓ} {V : Type κ} ⦃e : Eq K⦄ (k : K) → get {V = V} [] k ≡ none
unfolding get
get-empty k = refl

-- `BTreeMap::insert` on `u64` keys: the list is kept in the order of the keys.
module _ {κ} {V : Type κ} where
  unfoldable pub insert_sorted : Map ℕ V → ℕ → V → Map ℕ V
  insert_sorted [] k v = (k, v) ∷ []
  insert_sorted ((j, w) ∷ m) k v =
      let rest = insert_sorted m k v in
      if ltb k j then (k, v) ∷ (j, w) ∷ m else if k == j then (k, v) ∷ m else (j, w) ∷ rest

  pub get-insert_sorted :
      (m : Map ℕ V) (k : ℕ) (v : V) (j : ℕ)
      → get (insert_sorted m k v) j ≡ (if k == j then some v else get m j)
  unfolding get insert_sorted
  get-insert_sorted [] k v j = refl
  get-insert_sorted ((i, w) ∷ m) k v j = ground (arith, get-insert_sorted m k v j)

  pub length-insert_sorted :
      (m : Map ℕ V) (k : ℕ) (v : V) → length (insert_sorted m k v) ≤ length m + 1
  unfolding insert_sorted
  length-insert_sorted [] k v = omega arith
  length-insert_sorted ((i, w) ∷ m) k v = ground (arith, length-insert_sorted m k v)

  pub length-insert_sorted_new :
      (m : Map ℕ V) (k : ℕ) (v : V) → get m k ≡ none → length (insert_sorted m k v) ≡ length m + 1
  unfolding get insert_sorted
  length-insert_sorted_new [] k v h = refl
  length-insert_sorted_new ((i, w) ∷ m) k v h = ground (arith, length-insert_sorted_new m k v)

  -- `keys().next()`
  abbrev pub first_key : Map ℕ V → Option ℕ
  first_key [] = none
  first_key ((k, v) ∷ m) = some k

module _ {κ μ} {V : Type κ} (P : ℕ → V → Type μ) where
  pub All-insert_sorted :
      (m : Map ℕ V) (k : ℕ) (v : V)
      → P k v
      → All (λ x. P x.0 x.1) m
      → All (λ x. P x.0 x.1) (insert_sorted m k v)
  unfolding insert_sorted
  All-insert_sorted [] k v p h = (p, tt)
  All-insert_sorted ((j, w) ∷ m) k v p h = elim (Bool-cases (ltb k j)) [
    | inl before ↦ rw before (p, h)
    | inr after ↦ rw after (elim (Bool-cases (k == j)) [
      | inl same ↦ rw same (p, h.1)
      | inr other ↦ rw other (h.0, All-insert_sorted m k v p h.1)
    ])
  ]

-- A map that has every key once.
abbrev pub HasOnce {ℓ κ} : {K : Type ℓ} {V : Type κ} ⦃e : Eq K⦄ → Map K V → Type κ
HasOnce [] = Unit
HasOnce ((k, v) ∷ m) = (get m k ≡ none) × HasOnce m

module _ {ℓ κ} {K : Type ℓ} {V : Type κ} ⦃e : Eq K⦄ where
  pub HasOnce-insert : (m : Map K V) (k : K) (v : V) → HasOnce m → HasOnce (insert m k v)
  unfolding insert get
  HasOnce-insert [] k v h = (refl, tt)
  HasOnce-insert ((j, w) ∷ m) k v h = elim (Bool-cases (j == k)) [
    | inl same ↦ rw same (rw (sym ((e.beq_iff j k).0 same)) h.0, h.1)
    | inr other ↦ rw other (
      ground (arith, get-insert m k v j, h.0, e.beq_iff k j, e.beq_iff j k),
      HasOnce-insert m k v h.1,
    )
  ]

  pub HasOnce-remove : (m : Map K V) (k : K) → HasOnce m → HasOnce (remove m k)
  unfolding remove
  HasOnce-remove [] k h = tt
  HasOnce-remove ((j, w) ∷ m) k h = elim (Bool-cases (j == k)) [
    | inl same ↦ rw same (HasOnce-remove m k h.1)
    | inr other ↦ rw other (ground (arith, get-remove m k j, h.0), HasOnce-remove m k h.1)
  ]

-- Whether there is a value and it has the property.
abbrev pub holds_at {ℓ} : {V : Type ℓ} → (V → Bool) → Option V → Bool
holds_at p none = false
holds_at p (some v) = p v

-- The keys whose values have a property.
abbrev pub keys_where {ℓ κ} : {K : Type ℓ} {V : Type κ} → (V → Bool) → Map K V → List K
keys_where {K} {V} p m = map (λ (e : K × V). e.0) (retain (λ e. p e.1) m)

module _ {ℓ κ} {K : Type ℓ} {V : Type κ} ⦃e : Eq K⦄ (p : V → Bool) where
  pub any-keys_where :
      (m : Map K V) (k : K) → HasOnce m → any (λ j. j == k) (keys_where p m) ≡ holds_at p (get m k)
  unfolding get
  any-keys_where [] k h = refl
  any-keys_where ((j, v) ∷ m) k h = elim (Bool-cases (p v)) [
    | inl old ↦
        rw (old, any)
          (elim (Bool-cases (j == k)) [
            | inl same ↦ rw (same, old)
            | inr other ↦ rw other (any-keys_where m k h.1)
          ])
    | inr live ↦
        rw (live, any)
          (elim (Bool-cases (j == k)) [
            | inl same ↦
                (let gone : get m k ≡ none =
                    subst (λ x. get m x ≡ none) ((e.beq_iff j k).0 same) h.0 in
                  rw (same, live) (any-keys_where m k h.1 ∙ ap (holds_at p) gone))
            | inr other ↦ rw other (any-keys_where m k h.1)
          ])
  ]
