-- ===== src/KbdManager/Unlock.antt =====
-- The keyboards while the connection to the macro daemon is down: `unlockAll` of src/KBDManager.cpp,
-- and the destructor of what it returns.
use hawck.Prelude.{
  ℕ, zero, suc, ◌+◌, ◌≤◌, ◌<◌, ◌≡◌, refl, sym, ap, ◌∙◌, Bool, true, false, ◌||◌, List, [], ◌∷◌,
  Option, none, some, ◌==◌, elem, get_elem?, arith, ==_iff, Bool-cases, Option-cases, inl, inr,
}
use hawck.Prelude.Int.{ℤ}
use hawck.Effect.{Error, Result, ok, err, system_error, Result-cases}
use hawck.Keyboard.{
  Devices, Keyboard, KbdState, locked, locking, open_state, is_disabled, lock, unlock, disable,
  num_down,
}
use hawck.KbdManager.{
  KbdManager, replace_at, on_kbd, unlock_one, unlock_each, unlock_all, lock_from,
}
use hawck.KbdManager.Events.{replace_at_other}

abbrev pub is_open : KbdState → Bool
is_open locked = false
is_open locking = false
is_open open_state = true

-- The keyboard is not held back from other programs.
abbrev pub is_freed : Keyboard → Bool
is_freed k = is_open k.state || is_disabled k

abbrev pub freed_at : List Keyboard → ℕ → Bool
freed_at [] id = true
freed_at (k ∷ kbds) zero = is_freed k
freed_at (k ∷ kbds) (suc id) = freed_at kbds id

freed_at-replace_at :
    (kbds : List Keyboard) (id other : ℕ) (k : Keyboard)
    → is_freed k ≡ true
    → freed_at kbds other ≡ true
    → freed_at (replace_at kbds id k) other ≡ true
freed_at-replace_at [] id other k f h = h
freed_at-replace_at (x ∷ kbds) zero zero k f h = f
freed_at-replace_at (x ∷ kbds) zero (suc other) k f h = h
freed_at-replace_at (x ∷ kbds) (suc id) zero k f h = h
freed_at-replace_at (x ∷ kbds) (suc id) (suc other) k f h = freed_at-replace_at kbds id other k f h

freed_at_replaced :
    (kbds : List Keyboard) (id : ℕ) (k : Keyboard)
    → is_freed k ≡ true
    → freed_at (replace_at kbds id k) id ≡ true
freed_at_replaced [] id k f = refl
freed_at_replaced (x ∷ kbds) zero k f = f
freed_at_replaced (x ∷ kbds) (suc id) k f = freed_at_replaced kbds id k f

freed_at_missing :
    (kbds : List Keyboard) (id : ℕ) → get_elem? kbds id ≡ none → freed_at kbds id ≡ true
freed_at_missing [] id h = refl
freed_at_missing (x ∷ kbds) zero h = absurd (ground arith)
freed_at_missing (x ∷ kbds) (suc id) h = freed_at_missing kbds id h

missing_above :
    (kbds : List Keyboard) (id j : ℕ) → get_elem? kbds id ≡ none → id ≤ j → get_elem? kbds j ≡ none
missing_above [] id j h l = refl
missing_above (x ∷ kbds) zero j h l = absurd (ground arith)
missing_above (x ∷ kbds) (suc id) zero h l = absurd (omega arith)
missing_above (x ∷ kbds) (suc id) (suc j) h l = missing_above kbds id j h (omega arith)

module _ (D : Devices) (poll : List ℤ → D.W → Result (Option (List Bool)) × D.W) where
  unlock-frees :
      (k : Keyboard) (w : D.W) → (unlock D (k, w)).0 ≡ ok tt → is_freed (unlock D (k, w)).1.0 ≡ true
  unfolding unlock
  unlock-frees k w h = ground (arith, h)

  disable-frees : (k : Keyboard) (w : D.W) → is_freed (disable D (k, w)).0 ≡ true
  unfolding disable
  disable-frees k w = ground arith

  -- The keyboard of a round is replaced by one that is freed.
  unlock_one_lem :
      (id : ℕ) (k : Keyboard) (m : KbdManager D poll)
      → (k' : Keyboard) × ((unlock_one D poll id k m).kbds ≡ replace_at m.kbds id k')
        × (is_freed k' ≡ true)
  unfolding unlock_one
  unlock_one_lem id k m = elim (Result-cases (unlock D (k, m.devices)).0) [
    | inl (u, fine) ↦
        ((unlock D (k, m.devices)).1.0, rw (fine, unlock_one) refl, unlock-frees k m.devices fine)
    | inr (e, failed) ↦
        let (k', w) = (unlock D (k, m.devices)).1 in
        let k'' = (disable D (k', w)).0 in (k'', rw (failed, unlock_one) refl, disable-frees k' w)
  ]

  unlock_each-keeps :
      (ids : List ℕ) (other : ℕ) (m : KbdManager D poll)
      → freed_at m.kbds other ≡ true
      → freed_at (unlock_each D poll ids m).kbds other ≡ true
  unfolding unlock_each
  unlock_each-keeps [] other m h = h
  unlock_each-keeps (id ∷ ids) other m h = elim (Option-cases (get_elem? m.kbds id)) [
    | inl missing ↦ rw (missing, unlock_each) (unlock_each-keeps ids other m h)
    | inr (k, kbd) ↦
        let (k', e, f) = unlock_one_lem id k m in
        rw (kbd, unlock_each)
          (unlock_each-keeps ids other (unlock_one D poll id k m)
            (ap (λ ks. freed_at ks other) e ∙ freed_at-replace_at m.kbds id other k' f h))
  ]

  unlock_each-frees :
      (ids : List ℕ) (id : ℕ) (m : KbdManager D poll)
      → elem id ids ≡ true
      → freed_at (unlock_each D poll ids m).kbds id ≡ true
  unfolding unlock_each
  unlock_each-frees [] id m h = absurd (ground arith)
  unlock_each-frees (x ∷ ids) id m h = elim (Bool-cases (x == id)) [
    | inr unequal ↦
        let later : elem id ids ≡ true = ground (arith, h, unequal) in
        elim (Option-cases (get_elem? m.kbds x)) [
          | inl missing ↦ rw (missing, unlock_each) (unlock_each-frees ids id m later)
          | inr (k, kbd) ↦
              rw (kbd, unlock_each) (unlock_each-frees ids id (unlock_one D poll x k m) later)
        ]
    | inl equal ↦
        let same = (==_iff x id).0 equal in
        elim (Option-cases (get_elem? m.kbds x)) [
          | inl missing ↦
              rw (missing, unlock_each)
                (unlock_each-keeps ids id m (freed_at_missing m.kbds id (rw (← same) missing)))
          | inr (k, kbd) ↦
              let (k', e, f) = unlock_one_lem x k m in
              rw (kbd, unlock_each)
                (unlock_each-keeps ids id (unlock_one D poll x k m) (
                  ap (λ ks. freed_at ks id) e
                  ∙ ap (λ i. freed_at (replace_at m.kbds x k') i) (sym same)
                  ∙ freed_at_replaced m.kbds x k' f))
        ]
  ]

  -- After `unlockAll`, each keyboard that was available is open or disabled, those that could not be
  -- unlocked among them: no keyboard stays locked while the connection is made anew.
  pub unlock_all-frees :
      (id : ℕ) (m : KbdManager D poll)
      → elem id m.available_kbds ≡ true
      → freed_at (unlock_all D poll m).kbds id ≡ true
  unfolding unlock_all
  unlock_all-frees id m h = unlock_each-frees m.available_kbds id m h

  lock_unreadable :
      (k : Keyboard) (w : D.W) → D.key_states k.fd w ≡ none → (lock D (k, w)).0 ≡ err system_error
  unfolding lock num_down
  lock_unreadable k w h = ground (arith, h)

  -- When the keys of one of the keyboards cannot be read, as of one that `disable` has closed, then
  -- locking all keyboards again ends with an exception.
  pub lock_from_unreadable :
      (count id j : ℕ) (k : Keyboard) (m : KbdManager D poll)
      → get_elem? m.kbds j ≡ some k
      → ((w : D.W) → D.key_states k.fd w ≡ none)
      → id ≤ j
      → j < id + count
      → (e : Error) × ((lock_from D poll count id m).0 ≡ err e)
  unfolding lock_from
  lock_from_unreadable zero id j k m at bad l b = absurd (omega arith)
  lock_from_unreadable (suc count) id j k m at bad l b = elim (Bool-cases (id == j)) [
    | inl here ↦
        let at' = ap (get_elem? m.kbds) ((==_iff id j).0 here) ∙ at in
        let fails = lock_unreadable k m.devices (bad m.devices) in
        (system_error, rw (at', lock_from) (rw (fails, lock_from) refl))
    | inr later ↦ elim (Option-cases (get_elem? m.kbds id)) [
      | inl missing ↦ absurd (ground (arith, missing_above m.kbds id j missing l, at))
      | inr (k', kbd) ↦ elim (Result-cases (lock D (k', m.devices)).0) [
        | inr (e, failed) ↦ (e, rw (kbd, lock_from) (rw (failed, lock_from) refl))
        | inl (u, fine) ↦
            let m' = (on_kbd D poll id k' (lock D) m).2 in
            let (e, fails) =
              lock_from_unreadable count (id + 1) j k m'
                (replace_at_other m.kbds id j (lock D (k', m.devices)).1.0 later ∙ at) bad
                (ground (arith, later)) (omega arith) in
            (e, rw (kbd, lock_from) (rw (fine, lock_from) fails))
      ]
    ]
  ]
