-- ===== src/Passthrough/Sources.antt =====
-- The entries of `key_sources` of src/KBDDaemon.hpp, and the loops over them.
use hawck.Prelude.{
  ℕ, ◌<◌, ◌≡◌, refl, ◌∙◌, Bool, false, ◌||◌, List, [], ◌∷◌, none, some, arith, Str, elem, All, ◌==◌,
  str_eq, str_eq_iff, if◌then◌else◌, Bool-cases, inl, inr,
}
use hawck.Input.{key_max}
use hawck.Passthrough.{
  KeyVisibility, key_show, Visibility, Sources, find, erase, assign, mark, readd,
}

-- Whether some source lists the code.
abbrev pub listed : Sources → ℕ → Bool
listed [] c = false
listed ((p, vec) ∷ s) c = elem c vec || listed s c

-- No path has two entries.
abbrev pub Unique : Sources → Type 0
Unique [] = Unit
Unique ((p, vec) ∷ s) = (find p s ≡ none) × Unique s

-- Every code indexes the array `key_visibility`.
abbrev pub InRange : Sources → Type 0
InRange [] = Unit
InRange ((p, vec) ∷ s) = All (λ c. c < key_max) vec × InRange s

pub mark-at :
    (v : KeyVisibility) (vec : List ℕ) (vis : Visibility) (c : ℕ)
    → mark v vec vis c ≡ (if elem c vec then v else vis c)
unfolding mark
mark-at v [] vis c = refl
mark-at v (code ∷ vec) vis c = mark-at v vec (λ k. if k == code then v else vis k) c ∙ ground arith

pub readd-at :
    (s : Sources) (vis : Visibility) (c : ℕ)
    → readd s vis c ≡ (if listed s c then key_show else vis c)
unfolding readd
readd-at [] vis c = refl
readd-at ((p, vec) ∷ s) vis c =
    readd-at s (mark key_show vec vis) c ∙ ground (arith, mark-at key_show vec vis c)

module _ (path : Str) where
  pub find-erase_other : (p : Str) (s : Sources) → find p s ≡ none → find p (erase path s) ≡ none
  find-erase_other p [] h = refl
  find-erase_other p ((q, vec) ∷ s) h = ground (arith, find-erase_other p s)

  pub erase-Unique : (s : Sources) → Unique s → Unique (erase path s)
  erase-Unique [] u = tt
  erase-Unique ((p, vec) ∷ s) u = ground (arith, erase-Unique s u.1, find-erase_other p s u.0)

  pub find-erase : (s : Sources) → Unique s → find path (erase path s) ≡ none
  find-erase [] u = refl
  find-erase ((p, vec) ∷ s) u = elim (Bool-cases (str_eq p path)) [
    | inl same ↦ rw same (rw ((str_eq_iff p path).0 same) at u.0)
    | inr other ↦ rw (other, other) (find-erase s u.1)
  ]

  pub erase-InRange : (s : Sources) → InRange s → InRange (erase path s)
  erase-InRange [] h = tt
  erase-InRange ((p, vec) ∷ s) h = ground (arith, erase-InRange s h.1)

  pub erase_absent : (s : Sources) → find path s ≡ none → erase path s ≡ s
  erase_absent [] h = refl
  erase_absent ((p, vec) ∷ s) h = ground (arith, erase_absent s)

  -- What is listed is listed by the entry of the path or by the others.
  pub listed-erase :
      (s : Sources) (vec : List ℕ) (c : ℕ)
      → find path s ≡ some vec
      → listed s c ≡ (elem c vec || listed (erase path s) c)
  listed-erase [] vec c h = ground arith
  listed-erase ((p, w) ∷ s) vec c h = ground (arith, listed-erase s vec c)

  module _ (vec : List ℕ) where
    pub listed-assign :
        (s : Sources) (c : ℕ)
        → find path s ≡ none
        → listed (assign path vec s) c ≡ (elem c vec || listed s c)
    listed-assign [] c h = refl
    listed-assign ((p, w) ∷ s) c h = ground (arith, listed-assign s c)

    pub assign-InRange :
        (s : Sources) → All (λ c. c < key_max) vec → InRange s → InRange (assign path vec s)
    assign-InRange [] a h = (a, tt)
    assign-InRange ((p, w) ∷ s) a h = ground (arith, assign-InRange s a h.1)

    pub find-assign_other :
        (p : Str) (s : Sources)
        → str_eq path p ≡ false
        → find p s ≡ none
        → find p (assign path vec s) ≡ none
    find-assign_other p [] n h = rw n
    find-assign_other p ((q, w) ∷ s) n h =
        ground
          (arith, find-assign_other p s n, str_eq_iff q path, str_eq_iff path p, str_eq_iff q p)

    pub assign-Unique : (s : Sources) → find path s ≡ none → Unique s → Unique (assign path vec s)
    assign-Unique [] h u = (refl, tt)
    assign-Unique ((p, w) ∷ s) h u =
        ground (arith, assign-Unique s, find-assign_other p s, str_eq_iff path p, str_eq_iff p path)
