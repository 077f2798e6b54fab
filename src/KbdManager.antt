-- ===== src/KbdManager.antt =====
-- src/KBDManager.cpp: the keyboards that the input daemon listens on.
pub mod Events
pub mod Unlock
pub mod Hotplug
pub mod Ready
pub mod Indices
pub mod Replug
mod Examples
mod HotplugExamples
use hawck.Prelude.{
  ℕ, zero, suc, ◌+◌, ◌≡◌, Bool, true, false, not, ◌&&◌, List, [], ◌∷◌, ◌++◌, map, Option, none,
  some, ◌==◌, get_elem?, if◌then◌else◌,
}
use hawck.Prelude.Int.{ℤ, pos, negsuc}
use hawck.Input.{KbdAction}
use hawck.Effect.{
  Result, ok, err, system_error, socket_error, keyboard_error, process_ended, Action, proceed,
  ◌>>=◌, ◌>>◌,
}
use hawck.Keyboard.{
  Devices, Keyboard, KbdState, locked, locking, open_state, is_disabled, Held, lock, unlock, get,
  disable,
}

abbrev pub int_eq : ℤ → ℤ → Bool
int_eq (pos a) (pos b) = a == b
int_eq (pos a) (negsuc b) = false
int_eq (negsuc a) (pos b) = false
int_eq (negsuc a) (negsuc b) = a == b

-- The descriptor of the first entry with an event, -1 if there is none, and its first index.
abbrev pub first_event : List ℤ → List Bool → ℤ
first_event [] flags = negsuc 0
first_event (fd ∷ fds) [] = negsuc 0
first_event (fd ∷ fds) (flag ∷ flags) = if flag then fd else first_event fds flags

abbrev pub index_of : List ℤ → ℤ → ℕ → Option ℕ
index_of [] fd idx = none
index_of (x ∷ fds) fd idx = if int_eq x fd then some idx else index_of fds fd (idx + 1)

-- `kbdMultiplex` with a timeout other than -1, on what `poll` returns: an exception, no event in time,
-- or for each descriptor whether it has an event.
unfoldable pub multiplex : List ℤ → Result (Option (List Bool)) → Result (Option ℕ)
multiplex fds (err e) = err system_error
multiplex fds (ok none) = ok none
multiplex fds (ok (some flags)) = elim (index_of fds (first_event fds flags) 0) [
  | none ↦ err system_error
  | some idx ↦ ok (some idx)
]

-- `vec.erase(find(vec.begin(), vec.end(), kbd))`.
abbrev pub erase_first : ℕ → List ℕ → List ℕ
erase_first id [] = []
erase_first id (x ∷ ids) = if x == id then ids else x ∷ erase_first id ids

abbrev pub replace_at : List Keyboard → ℕ → Keyboard → List Keyboard
replace_at [] id k = []
replace_at (x ∷ kbds) zero k = k ∷ kbds
replace_at (x ∷ kbds) (suc id) k = x ∷ replace_at kbds id k

-- The loop of `updateAvailableKBDs`, from index `id` on.
unfoldable pub enabled_from : List Keyboard → ℕ → List ℕ
enabled_from [] id = []
enabled_from (k ∷ kbds) id =
    let rest = enabled_from kbds (id + 1) in if not (is_disabled k) then id ∷ rest else rest

module _ (D : Devices) (poll : List ℤ → D.W → Result (Option (List Bool)) × D.W) where
  -- A keyboard is known by its index in `kbds`, from which none is ever removed.
  pub record KbdManager : Type 0 where
    pub kbds : List Keyboard
    pub available_kbds : List ℕ
    pub pulled_kbds : List ℕ
    pub devices : D.W

  -- A method of keyboard `id`, whose object is `k`.
  abbrev pub on_kbd :
      {A : Type 0}
      → ℕ
      → Keyboard
      → Action (Held D) A
      → KbdManager
      → Result A × Keyboard × KbdManager
  on_kbd id k act m =
      let (r, h) = act (k, m.devices) in
      (r, h.0, record m { kbds = replace_at m.kbds id h.0; devices = h.1 })

  abbrev pub descriptors : List Keyboard → List ℕ → List ℤ
  descriptors kbds [] = []
  descriptors kbds (id ∷ ids) = elim (get_elem? kbds id) [
    | none ↦ descriptors kbds ids
    | some k ↦ k.fd ∷ descriptors kbds ids
  ]

  -- The handler of `KeyboardError` in `getEvent`.
  unfoldable pub remove : ℕ → Keyboard → KbdManager → KbdManager
  remove id k m =
      let (k', w) = disable D (k, m.devices) in
      record {
        kbds = replace_at m.kbds id k';
        available_kbds = erase_first id m.available_kbds;
        pulled_kbds = m.pulled_kbds ++ id ∷ [];
        devices = w;
      }

  -- What `getEvent` does with an action of keyboard `id`: the value is what it hands on.
  abbrev pub accept : KbdState → ℕ → Keyboard → KbdAction → Action KbdManager (Option KbdAction)
  accept locked id k action m = (ok (some action), m)
  accept locking id k action m = (ok none, m)
  accept open_state id k action m =
      let (r, k', m') = on_kbd id k (lock D) m in proceed r m' (λ _ m''. (ok none, m''))

  unfoldable pub get_from : ℕ → Keyboard → Action KbdManager (Option KbdAction)
  get_from id k m =
      let (r, k', m') = on_kbd id k (get D) m in
      elim r [
        | ok action ↦ accept k'.state id k' action m'
        | err keyboard_error ↦ (ok none, remove id k' m')
        | err system_error ↦ (err system_error, m')
        | err socket_error ↦ (err socket_error, m')
        | err process_ended ↦ (err process_ended, m')
      ]

  -- `getEvent`: the action, if it returns true.
  unfoldable pub get_event : Action KbdManager (Option KbdAction)
  get_event m =
      let fds = descriptors m.kbds m.available_kbds in
      let (polled, w) = poll fds m.devices in
      let m' = record m { devices = w } in
      elim (multiplex fds polled) [
        | err e ↦ (err e, m')
        | ok none ↦ (ok none, m')
        | ok (some idx) ↦ elim (get_elem? m.available_kbds idx) [
          | none ↦ (ok none, m')
          | some id ↦ elim (get_elem? m.kbds id) [
            | none ↦ (ok none, m')
            | some k ↦ get_from id k m'
          ]
        ]
      ]

  unfoldable pub update_available : KbdManager → KbdManager
  update_available m = record m { available_kbds = enabled_from m.kbds 0 }

  -- One round of the loop of `unlockAll`: a keyboard that cannot be unlocked is disabled.
  unfoldable pub unlock_one : ℕ → Keyboard → KbdManager → KbdManager
  unlock_one id k m =
      let (r, k', m') = on_kbd id k (unlock D) m in
      let (k'', w) = disable D (k', m'.devices) in
      let disabled = record m' { kbds = replace_at m.kbds id k''; devices = w } in
      elim r [ ok u ↦ m' | err e ↦ disabled ]

  unfoldable pub unlock_each : List ℕ → KbdManager → KbdManager
  unfolding unlock_one
  unlock_each [] m = m
  unlock_each (id ∷ ids) m = elim (get_elem? m.kbds id) [
    | none ↦ unlock_each ids m
    | some k ↦ unlock_each ids (unlock_one id k m)
  ]

  unfoldable pub unlock_all : KbdManager → KbdManager
  unfolding unlock_each
  unlock_all m = unlock_each m.available_kbds m

  -- The destructor of what `unlockAll` returns, over all keyboards: `lock` throws `SystemError`, which
  -- is not caught.
  unfoldable pub lock_from : ℕ → ℕ → Action KbdManager Unit
  lock_from zero id m = (ok tt, m)
  lock_from (suc count) id m = elim (get_elem? m.kbds id) [
    | none ↦ (ok tt, m)
    | some k ↦
        let (r, k', m') = on_kbd id k (lock D) m in
        let went_on = lock_from count (id + 1) m' in elim r [ ok u ↦ went_on | err e ↦ (err e, m') ]
  ]
