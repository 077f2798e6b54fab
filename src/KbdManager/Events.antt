-- ===== src/KbdManager/Events.antt =====
-- Which events src/KBDManager.cpp hands on, and which keyboards it listens on.
use mathlib.Core.Path.{subst}
use hawck.Prelude.{
  ℕ, zero, suc, ◌+◌, ◌-◌, ◌≡◌, refl, sym, ap, ◌∙◌, Bool, true, false, not, ◌&&◌, List, [], ◌∷◌,
  Option, none, some, ◌==◌, leb, elem, get_elem?, arith, Bool-cases, Option-cases, inl, inr,
}
use hawck.Prelude.Int.{ℤ}
use hawck.Input.{KbdAction}
use hawck.Effect.{
  Error, Result, ok, err, system_error, socket_error, keyboard_error, process_ended, Result-cases,
  >>=-ok,
}
use hawck.Keyboard.{
  Devices, Keyboard, KbdState, locked, locking, open_state, is_disabled, get, settle, Held,
}
use hawck.KbdManager.{
  KbdManager, multiplex, descriptors, replace_at, accept, get_from, get_event, enabled_from, on_kbd,
}

get_elem?-replace_at :
    (kbds : List Keyboard) (id : ℕ) (k k' : Keyboard)
    → get_elem? kbds id ≡ some k
    → get_elem? (replace_at kbds id k') id ≡ some k'
get_elem?-replace_at [] id k k' h = absurd (ground arith)
get_elem?-replace_at (x ∷ kbds) zero k k' h = refl
get_elem?-replace_at (x ∷ kbds) (suc id) k k' h = get_elem?-replace_at kbds id k k' h

pub replace_at_other :
    (kbds : List Keyboard) (id other : ℕ) (k : Keyboard)
    → (id == other) ≡ false
    → get_elem? (replace_at kbds id k) other ≡ get_elem? kbds other
replace_at_other [] id other k h = refl
replace_at_other (x ∷ kbds) zero zero k h = absurd (ground arith)
replace_at_other (x ∷ kbds) zero (suc other) k h = refl
replace_at_other (x ∷ kbds) (suc id) zero k h = refl
replace_at_other (x ∷ kbds) (suc id) (suc other) k h =
    replace_at_other kbds id other k (ground (arith, h))

index_below : (start id : ℕ) → leb (start + 1) id ≡ true → id - start ≡ suc (id - (start + 1))
index_below start id h = ground arith

-- Whether there is a keyboard at an index, and it is not disabled.
abbrev pub enabled_at : List Keyboard → ℕ → Bool
enabled_at [] id = false
enabled_at (k ∷ kbds) zero = not (is_disabled k)
enabled_at (k ∷ kbds) (suc id) = enabled_at kbds id

-- A keyboard is in the list that `updateAvailableKBDs` makes exactly if it is not disabled: its
-- descriptor is not negative.
pub elem-enabled_from :
    (kbds : List Keyboard) (start id : ℕ)
    → elem id (enabled_from kbds start) ≡ (leb start id && enabled_at kbds (id - start))
unfolding enabled_from
elem-enabled_from [] start id = ground arith
elem-enabled_from (k ∷ kbds) start id = elim (Bool-cases (leb (start + 1) id)) [
  | inl above ↦ ground (
    arith,
    elem-enabled_from kbds (start + 1) id,
    ap (enabled_at (k ∷ kbds)) (index_below start id above),
  )
  | inr below ↦ ground (arith, elem-enabled_from kbds (start + 1) id)
]

ok_inj : {A : Type 0} {a b : A} → ◌≡◌ {A = Result A} (ok a) (ok b) → a ≡ b
ok_inj h = cc h

module _ (D : Devices) (poll : List ℤ → D.W → Result (Option (List Bool)) × D.W) where
  -- The action comes from an available keyboard whose state is LOCKED: it was the last thing read from the
  -- devices, by the descriptor of the keyboard.
  unfoldable pub FromLocked : KbdAction → KbdManager D poll → KbdManager D poll → Type 0
  FromLocked a m m' =
      (id : ℕ) × (k : Keyboard) × (elem id m.available_kbds ≡ true)
      × (get_elem? m'.kbds id ≡ some k)
      × (k.state ≡ locked)
      × (k.dev_id ≡ a.dev_id)
      × (u : D.W) × ((D.read k.fd u).0 ≡ some a.ev)
      × (m'.devices ≡ (D.read k.fd u).1)

  accept_lem :
      (s : KbdState) (id : ℕ) (k : Keyboard) (action a : KbdAction) (m : KbdManager D poll)
      → (accept D poll s id k action m).0 ≡ ok (some a)
      → (s ≡ locked) × (action ≡ a) × ((accept D poll s id k action m).1 ≡ m)
  accept_lem locked id k action a m h = (refl, ground arith, refl)
  accept_lem locking id k action a m h = absurd (ground arith)
  accept_lem open_state id k action a m h = absurd (ground arith)

  get-read :
      (h : Held D) (a : KbdAction)
      → (get D h).0 ≡ ok a
      → (u : D.W) × ((D.read (get D h).1.0.fd u).0 ≡ some a.ev)
        × ((get D h).1.1 ≡ (D.read (get D h).1.0.fd u).1)
  unfolding get
  get-read h a e =
      let read_from : (Held D → Result KbdAction × Held D) = λ g.
        let (ev, w) = D.read g.0.fd g.1 in
        elim ev [
          | none ↦ (err keyboard_error, (g.0, w))
          | some x ↦ (ok (record { done = false; dev_id = g.0.dev_id; ev = x }), (g.0, w))
        ] in
      let (u, fine, goes) = >>=-ok (settle D) (λ _. read_from) h a e in
      let h' = (settle D h).1 in
      elim (Option-cases (D.read h'.0.fd h'.1).0) [
        | inl failed ↦
            let stops : (read_from h').0 ≡ err keyboard_error = rw failed refl in
            absurd (cc (stops, e, goes))
        | inr (ev, got) ↦
            let given : Result KbdAction =
              ok (record { done = false; dev_id = h'.0.dev_id; ev = ev }) in
            let done : read_from h' ≡ (given, (h'.0, (D.read h'.0.fd h'.1).1)) = rw got refl in
            let same : ev ≡ a.ev =
              ap (λ b. b.ev) (ok_inj (sym (ap (λ r. r.0) (goes ∙ done)) ∙ e)) in
            let kbd : (get D h).1.0 ≡ h'.0 = ap (λ r. r.1.0) (goes ∙ done) in
            (
              h'.1,
              ap (λ k. (D.read k.fd h'.1).0) kbd ∙ got ∙ ap some same,
              ap (λ r. r.1.1) (goes ∙ done) ∙ sym (ap (λ k. (D.read k.fd h'.1).1) kbd),
            )
      ]

  get-dev_id : (h : Held D) (a : KbdAction) → (get D h).0 ≡ ok a → (get D h).1.0.dev_id ≡ a.dev_id
  unfolding get
  get-dev_id h a e = ground arith

  get_from_failed :
      (e : Error) (id : ℕ) (k : Keyboard) (a : KbdAction) (m : KbdManager D poll)
      → (get D (k, m.devices)).0 ≡ err e
      → (get_from D poll id k m).0 ≡ ok (some a)
      → ⊥
  unfolding get_from
  get_from_failed system_error id k a m f h = ground (arith, f, h)
  get_from_failed socket_error id k a m f h = ground (arith, f, h)
  get_from_failed keyboard_error id k a m f h = ground (arith, f, h)
  get_from_failed process_ended id k a m f h = ground (arith, f, h)

  get_from-FromLocked :
      (id : ℕ) (k : Keyboard) (a : KbdAction) (m : KbdManager D poll)
      → elem id m.available_kbds ≡ true
      → get_elem? m.kbds id ≡ some k
      → (get_from D poll id k m).0 ≡ ok (some a)
      → FromLocked a m (get_from D poll id k m).1
  unfolding get_from FromLocked
  get_from-FromLocked id k a m i e h = elim (Result-cases (get D (k, m.devices)).0) [
    | inl (action, got) ↦
        let k' = (get D (k, m.devices)).1.0 in
        let m' = (on_kbd D poll id k (get D) m).2 in
        let took : (accept D poll k'.state id k' action m').0 ≡ ok (some a) =
          sym (rw (got, get_from) refl) ∙ h in
        let (is, same, kept) = accept_lem k'.state id k' action a m' took in
        let (u, ev, last) = get-read (k, m.devices) action got in
        (
          id,
          k',
          i,
          rw (got, get_from) (rw kept (get_elem?-replace_at m.kbds id k k' e)),
          is,
          get-dev_id (k, m.devices) action got ∙ ap (λ b. b.dev_id) same,
          u,
          ev ∙ ap (λ b. some b.ev) same,
          rw (got, get_from) (ap (λ n. n.devices) kept ∙ last),
        )
    | inr (error, failed) ↦ absurd (get_from_failed error id k a m failed h)
  ]

  elem-get_elem? : (ids : List ℕ) (idx id : ℕ) → get_elem? ids idx ≡ some id → elem id ids ≡ true
  elem-get_elem? [] idx id h = absurd (ground arith)
  elem-get_elem? (x ∷ ids) zero id h = ground (arith, h)
  elem-get_elem? (x ∷ ids) (suc idx) id h = ground (arith, elem-get_elem? ids idx id h)

  -- Whatever the devices do, an event that `getEvent` hands on is what the last call on the devices, a
  -- read from an available keyboard whose state is then LOCKED, gave, and it carries the id of that
  -- keyboard's device.
  pub get_event-FromLocked :
      (a : KbdAction) (m : KbdManager D poll)
      → (get_event D poll m).0 ≡ ok (some a)
      → FromLocked a m (get_event D poll m).1
  unfolding get_event FromLocked
  get_event-FromLocked a m h =
      let (polled, w) = poll (descriptors D poll m.kbds m.available_kbds) m.devices in
      let m' = record m { devices = w } in
      elim (Result-cases (multiplex (descriptors D poll m.kbds m.available_kbds) polled)) [
        | inr (e, failed) ↦ absurd (ground (arith, failed, h))
        | inl (o, chosen) ↦ elim (Option-cases o) [
          | inl nobody ↦ absurd (ground (arith, chosen, nobody, h))
          | inr (idx, at) ↦ elim (Option-cases (get_elem? m.available_kbds idx)) [
            | inl none_there ↦ absurd (ground (arith, chosen, at, none_there, h))
            | inr (id, there) ↦ elim (Option-cases (get_elem? m.kbds id)) [
              | inl no_kbd ↦ absurd (ground (arith, chosen, at, there, no_kbd, h))
              | inr (k, kbd) ↦
                  let same : get_event D poll m ≡ get_from D poll id k m' =
                    rw (chosen, get_event)
                      (rw (at, get_event) (rw (there, get_event) (rw (kbd, get_event) refl))) in
                  subst (λ r. FromLocked a m r.1) (sym same)
                    (get_from-FromLocked id k a m' (elem-get_elem? m.available_kbds idx id there)
                      kbd (ap (λ r. r.0) (sym same) ∙ h))
            ]
          ]
        ]
      ]
