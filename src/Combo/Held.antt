-- ===== src/Combo/Held.antt =====
-- What `num_seq` of src/KeyCombo.hpp counts: the keys of the sequence that are held.
use hawck.Prelude.{
  ℕ, suc, ◌≡◌, refl, ap, inl, inr, ◌⊎◌, ◌≢◌, Bool, true, false, List, [], ◌∷◌, arith, elem, ◌==◌,
  if◌then◌else◌, Bool-cases, ==_iff,
}
use hawck.Input.{KbdAction, key_val_up, key_val_down, key_val_repeat}
use hawck.Combo.{KeyCombo, check}

-- Which keys are down.
abbrev pub Keys : Type 0
Keys = ℕ → Bool

abbrev pub all_up : Keys
all_up k = false

-- The keys after an event.
abbrev pub press : Keys → KbdAction → Keys
press held a k =
    if a.ev.code == k
    then (if a.ev.value == key_val_down
        then true
        else if a.ev.value == key_val_up
        then false
        else held k)
    else held k

-- A key goes down only when it is up, and up only when it is down.
abbrev pub Fits : Keys → KbdAction → Type 0
Fits held a =
    ((a.ev.value ≡ key_val_down) × (held a.ev.code ≡ false))
    ⊎ (((a.ev.value ≡ key_val_up) × (held a.ev.code ≡ true)) ⊎ (a.ev.value ≡ key_val_repeat))

abbrev pub Consistent : Keys → List KbdAction → Type 0
Consistent held [] = Unit
Consistent held (a ∷ rest) = Fits held a × Consistent (press held a) rest

abbrev pub Distinct : List ℕ → Type 0
Distinct [] = Unit
Distinct (k ∷ ks) = (elem k ks ≡ false) × Distinct ks

unfoldable pub held_after : Keys → List KbdAction → Keys
held_after held [] = held
held_after held (a ∷ rest) = held_after (press held a) rest

unfoldable pub combo_after : KeyCombo → List KbdAction → KeyCombo
combo_after c [] = c
combo_after c (a ∷ rest) = combo_after (check c a).1 rest

-- No event of the list fires the combo.
abbrev pub Quiet : KeyCombo → List KbdAction → Type 0
Quiet c [] = Unit
Quiet c (a ∷ rest) = ((check c a).0 ≡ false) × Quiet (check c a).1 rest

unfoldable pub held_count : Keys → List ℕ → ℕ
held_count held [] = 0
held_count held (k ∷ ks) = if held k then suc (held_count held ks) else held_count held ks

module _ (held : Keys) (a : KbdAction) where
  count_other :
      (ks : List ℕ) → elem a.ev.code ks ≡ false → held_count (press held a) ks ≡ held_count held ks
  unfolding held_count
  count_other [] h = refl
  count_other (k ∷ ks) h = ground (arith, count_other ks)

  count_down :
      (ks : List ℕ)
      → Distinct ks
      → elem a.ev.code ks ≡ true
      → a.ev.value ≡ 1
      → held a.ev.code ≡ false
      → held_count (press held a) ks ≡ suc (held_count held ks)
  unfolding held_count
  count_down [] d e v h = ground arith
  count_down (k ∷ ks) d e v h = elim (Bool-cases (k == a.ev.code)) [
    | inl same ↦ ground (arith, count_other ks, ap held ((==_iff k a.ev.code).0 same))
    | inr other ↦ ground (arith, count_down ks d.1)
  ]

  count_up :
      (ks : List ℕ)
      → Distinct ks
      → elem a.ev.code ks ≡ true
      → a.ev.value ≡ 0
      → held a.ev.code ≡ true
      → suc (held_count (press held a) ks) ≡ held_count held ks
  unfolding held_count
  count_up [] d e v h = ground arith
  count_up (k ∷ ks) d e v h = elim (Bool-cases (k == a.ev.code)) [
    | inl same ↦ ground (arith, count_other ks, ap held ((==_iff k a.ev.code).0 same))
    | inr other ↦ ground (arith, count_up ks d.1)
  ]

  count_repeat : (ks : List ℕ) → a.ev.value ≡ 2 → held_count (press held a) ks ≡ held_count held ks
  unfolding held_count
  count_repeat [] v = refl
  count_repeat (k ∷ ks) v = ground (arith, count_repeat ks v)

-- How one event changes the number of held keys of the sequence.
pub key_facts :
    (held : Keys) (a : KbdAction) (ks : List ℕ)
    → Distinct ks
    → Fits held a
    → let m = held_count held ks in
      let n = held_count (press held a) ks in
      ((a.ev.value ≡ 2) × (n ≡ m))
      ⊎ (((a.ev.value ≢ 2) × (elem a.ev.code ks ≡ false) × (n ≡ m))
          ⊎ (((a.ev.value ≡ 1) × (elem a.ev.code ks ≡ true) × (n ≡ suc m))
              ⊎ ((a.ev.value ≡ 0) × (elem a.ev.code ks ≡ true) × (suc n ≡ m))))
key_facts held a ks d (inr (inr v)) = inl (v, count_repeat held a ks v)
key_facts held a ks d (inl (v, u)) = elim (Bool-cases (elem a.ev.code ks)) [
  | inl i ↦ inr (inr (inl (v, i, count_down held a ks d i v u)))
  | inr o ↦ inr (inl (ground arith, o, count_other held a ks o))
]
key_facts held a ks d (inr (inl (v, u))) = elim (Bool-cases (elem a.ev.code ks)) [
  | inl i ↦ inr (inr (inr (v, i, count_up held a ks d i v u)))
  | inr o ↦ inr (inl (ground arith, o, count_other held a ks o))
]
