-- ===== src/Prelude/Maps.antt =====
-- Maps as lists of entries, for a test of equality on the keys.
use Prim.Native.Nat.{ℕ}
use mathlib.Core.Path.{◌≡◌, refl, sym, ap, ◌∙◌}
use mathlib.Core.Logic.{◌↔◌, ◌⊎◌, inl, inr}
use mathlib.Core.Bool.{Bool, true, false}
use mathlib.Core.List.{List, [], ◌∷◌}
use mathlib.Core.Option.{Option, none, some}
use native.Mathlib.Omega.{arith}
use hawck.Prelude.Tests.{◌==◌, ==_iff, if◌then◌else◌, Bool-cases}
use hawck.Prelude.Text.{Str, str_eq, str_eq_iff}

-- A type of keys.
pub record Key : Type 1 where
  pub K : Type 0
  pub same : K → K → Bool
  pub same_iff : (a b : K) → (same a b ≡ true) ↔ (a ≡ b)

abbrev pub nat_key : Key
nat_key = record { K = ℕ; same = ◌==◌; same_iff = ==_iff }

abbrev pub str_key : Key
str_key = record { K = Str; same = str_eq; same_iff = str_eq_iff }

module _ (key : Key) where
  open key use {K, same}

  pub same_refl : (k : K) → same k k ≡ true
  same_refl k = (key.same_iff k k).1 refl

  same_through : (i j k : K) → same i j ≡ true → same i k ≡ same j k
  same_through i j k h = ap (λ x. same x k) ((key.same_iff i j).0 h)

  pub same_apart : (i j k : K) → same i j ≡ false → same i k ≡ true → same j k ≡ false
  same_apart i j k h e = elim (Bool-cases (same j k)) [
    | inr no_match ↦ no_match
    | inl match_jk ↦
        let equal : i ≡ j = (key.same_iff i k).0 e ∙ sym ((key.same_iff j k).0 match_jk) in
        absurd (ground (arith, h, (key.same_iff i j).1 equal))
  ]

module _ (key : Key) {V : Type 0} where
  open key use {K, same}

  -- The iterator of `find`, `map[k] = v`, and `map.erase(k)`.
  unfoldable pub lookup : K → List (K × V) → Option V
  lookup k [] = none
  lookup k ((j, v) ∷ m) = if same j k then some v else lookup k m

  unfoldable pub insert : K → V → List (K × V) → List (K × V)
  insert k v [] = (k, v) ∷ []
  insert k v ((j, w) ∷ m) = if same j k then (k, v) ∷ m else (j, w) ∷ insert k v m

  unfoldable pub remove : K → List (K × V) → List (K × V)
  remove k [] = []
  remove k ((j, v) ∷ m) = let rest = remove k m in if same j k then rest else (j, v) ∷ rest

  pub lookup-insert :
      (k j : K) (v : V) (m : List (K × V))
      → lookup k (insert j v m) ≡ (if same j k then some v else lookup k m)
  unfolding lookup insert
  lookup-insert k j v [] = refl
  lookup-insert k j v ((i, w) ∷ m) = elim (Bool-cases (same i j)) [
    | inl h ↦ ground (arith, h, same_through key i j k h)
    | inr h ↦ elim (Bool-cases (same i k)) [
      | inl e ↦ rw (h, e, same_apart key i j k h e) refl
      | inr e ↦ rw (h, e) (lookup-insert k j v m)
    ]
  ]

  pub lookup-remove :
      (k j : K) (m : List (K × V)) → lookup k (remove j m) ≡ (if same j k then none else lookup k m)
  unfolding lookup remove
  lookup-remove k j [] = ground arith
  lookup-remove k j ((i, w) ∷ m) = elim (Bool-cases (same i j)) [
    | inl h ↦ ground (arith, h, same_through key i j k h, lookup-remove k j m)
    | inr h ↦ elim (Bool-cases (same i k)) [
      | inl e ↦ rw (h, e, same_apart key i j k h e) refl
      | inr e ↦ rw (h, e) (lookup-remove k j m)
    ]
  ]

  pub lookup-insert_here : (k : K) (v : V) (m : List (K × V)) → lookup k (insert k v m) ≡ some v
  lookup-insert_here k v m =
      lookup-insert k k v m ∙ ap (λ b. if b then some v else lookup k m) (same_refl key k)

  pub lookup-insert_other :
      (k j : K) (v : V) (m : List (K × V)) → same j k ≡ false → lookup k (insert j v m) ≡ lookup k m
  lookup-insert_other k j v m h =
      lookup-insert k j v m ∙ ap (λ b. if b then some v else lookup k m) h

  -- What an entry of a changed map says of the map before.
  pub lookup-insert_inv :
      (k j : K) (v u : V) (m : List (K × V))
      → lookup k (insert j v m) ≡ some u
      → ((j ≡ k) × (v ≡ u)) ⊎ ((same j k ≡ false) × (lookup k m ≡ some u))
  lookup-insert_inv k j v u m h = elim (Bool-cases (same j k)) [
    | inl e ↦
        let found : some v ≡ some u =
          sym (lookup-insert k j v m ∙ ap (λ b. if b then some v else lookup k m) e) ∙ h in
        inl ((key.same_iff j k).0 e, cc found)
    | inr e ↦ inr (e, sym (lookup-insert_other k j v m e) ∙ h)
  ]

  pub lookup-remove_inv :
      (k j : K) (u : V) (m : List (K × V))
      → lookup k (remove j m) ≡ some u
      → (same j k ≡ false) × (lookup k m ≡ some u)
  lookup-remove_inv k j u m h = elim (Bool-cases (same j k)) [
    | inl e ↦
        let gone = lookup-remove k j m ∙ ap (λ b. if b then none else lookup k m) e in
        absurd (cc (gone, h))
    | inr e ↦ (e, sym (lookup-remove k j m ∙ ap (λ b. if b then none else lookup k m) e) ∙ h)
  ]

  pub lookup-remove_other :
      (k j : K) (m : List (K × V)) → same j k ≡ false → lookup k (remove j m) ≡ lookup k m
  lookup-remove_other k j m h = lookup-remove k j m ∙ ap (λ b. if b then none else lookup k m) h

  pub lookup_apart :
      (k j : K) (u : V) (m : List (K × V))
      → lookup k m ≡ some u
      → lookup j m ≡ none
      → same j k ≡ false
  lookup_apart k j u m h g = elim (Bool-cases (same j k)) [
    | inr e ↦ e
    | inl e ↦
        let same_key = ap (λ x. lookup x m) ((key.same_iff j k).0 e) in absurd (cc (h, g, same_key))
  ]
