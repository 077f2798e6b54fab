-- ===== src/KbdManager/Hotplug.antt =====
-- src/KBDManager.cpp: what happens when a device appears in /dev/input/by-id.
use hawck.Prelude.{
  ℕ, zero, suc, ◌+◌, ◌*◌, ◌/◌, ◌%◌, Bool, true, false, not, ◌&&◌, ◌||◌, List, [], ◌∷◌, ◌++◌, Option,
  none, some, Str, codes, str_eq, ltb, leb, ◌==◌, get_elem?, length, if◌then◌else◌,
}
use hawck.Prelude.Int.{ℤ}
use hawck.Effect.{Result, ok, err, Action, proceed, ◌>>=◌, ◌>>◌}
use hawck.Permissions.{Stat}
use hawck.Keyboard.{Devices, Keyboard, lock}
use hawck.Keyboard.Opening.{Opens, open_keyboard, is_me, reset}
use hawck.KbdManager.{KbdManager, erase_first, on_kbd, lock_from, update_available}

-- FSW_MAX_WAIT_PERMISSIONS_US, and `wait_inc_us`.
abbrev pub max_wait : ℕ
max_wait = 5000000

abbrev pub wait_inc : ℕ
wait_inc = 100

-- `S_ISCHR`.
abbrev pub is_char_device : Stat → Bool
is_char_device st = st.st_mode / 0o10000 % 0o20 == 2

-- `stbuf.st_mode & S_IRWXG`.
abbrev pub group_bits : Stat → ℕ
group_bits st = st.st_mode / 8 % 8 * 8

-- `4 & grp_perm && grp_perm & 2`.
abbrev pub has_permissions : Stat → Bool
has_permissions st = group_bits st / 4 % 2 == 1 && group_bits st / 2 % 2 == 1

-- The loop of `waitForDevice`, on fuel: `stats` is what `stat` gives in each round.
unfoldable pub wait_rounds : ℕ → (ℕ → Option Stat) → ℕ → ℕ → ℕ → Option Bool
wait_rounds zero stats input_gid round wait_time = none
wait_rounds (suc fuel) stats input_gid round wait_time =
    let wait_time' = wait_time + wait_inc in
    let rest = wait_rounds fuel stats input_gid (round + 1) wait_time' in
    elim (stats round) [
      | none ↦ if ltb max_wait wait_time' then some false else some true
      | some st ↦
          if not (is_char_device st)
          then some false
          else if ltb max_wait wait_time'
          then some false
          else if not (has_permissions st) && not (st.st_gid == input_gid)
          then rest
          else some true
    ]

-- The most rounds that the loop takes.
abbrev pub enough_rounds : ℕ
enough_rounds = 50001

unfoldable pub wait_for_device : (ℕ → Option Stat) → ℕ → Option Bool
wait_for_device stats input_gid = wait_rounds enough_rounds stats input_gid 0 0

-- What is left of a reversed path without a suffix, which is reversed too.
abbrev pub strip : Str → Str → Option Str
strip [] path = some path
strip (c ∷ suffix) [] = none
strip (c ∷ suffix) (d ∷ path) = if c == d then strip suffix path else none

abbrev pub is_digit : ℕ → Bool
is_digit c = leb 48 c && leb c 57

-- `.` of a regular expression stands for no line feed and no carriage return.
abbrev pub on_one_line : Str → Bool
on_one_line [] = true
on_one_line (c ∷ path) = not (c == 10 || c == 13) && on_one_line path

-- The end "-if[0-9]+" of what stands before "-event-kbd", reversed; `seen` says whether there has been a
-- digit.
abbrev pub has_interface : Bool → Str → Bool
has_interface seen [] = false
has_interface seen (c ∷ path) =
    let more = has_interface true path in
    let ended =
      seen && elim (strip (codes "fi-") (c ∷ path)) [ none ↦ false | some before ↦ true ] in
    if is_digit c then more else ended

abbrev pub reverse_onto : Str → Str → Str
reverse_onto [] acc = acc
reverse_onto (c ∷ path) acc = reverse_onto path (c ∷ acc)

-- `byIDIsKeyboard`.
unfoldable pub by_id_is_keyboard : Str → Bool
by_id_is_keyboard path = elim (strip (codes "dbk-tneve-") (reverse_onto path [])) [
  | none ↦ false
  | some before ↦ on_one_line before && not (has_interface false before)
]

abbrev pub by_id_dir : Str
by_id_dir = codes "/dev/input/by-id"

module _ (D : Devices) (O : Opens D) (poll : List ℤ → D.W → Result (Option (List Bool)) × D.W) where
  -- The loop over `pulled_kbds`, from its first keyboard that has not been looked at: the index of the
  -- first that is the device.
  unfoldable pub find_me : Str → List Keyboard → List ℕ → Action D.W (Option ℕ)
  find_me path kbds [] w = (ok none, w)
  find_me path kbds (id ∷ ids) w = elim (get_elem? kbds id) [
    | none ↦ find_me path kbds ids w
    | some k ↦
        let (r, w') = is_me D O k path w in
        let rest = find_me path kbds ids w' in
        elim r [ err e ↦ (err e, w') | ok me ↦ if me then (ok (some id), w') else rest ]
  ]

  -- `kbd->reset`, `kbd->lock`, and the lists.
  unfoldable pub reconnect : Str → ℕ → Keyboard → Action (KbdManager D poll) Unit
  reconnect path id k m =
      let (r, k', m') = on_kbd D poll id k (reset D O path >> lock D) m in
      proceed r m' (λ _ n. (
        ok tt,
        record n {
          available_kbds = n.available_kbds ++ id ∷ [];
          pulled_kbds = erase_first id n.pulled_kbds;
        },
      ))

  unfoldable pub replug : Str → Action (KbdManager D poll) Unit
  replug path m =
      let (r, w) = find_me path m.kbds m.pulled_kbds m.devices in
      let m' = record m { devices = w } in
      elim r [
        | err e ↦ (err e, m')
        | ok none ↦ (ok tt, m')
        | ok (some id) ↦ elim (get_elem? m.kbds id) [
          | none ↦ (ok tt, m')
          | some k ↦ reconnect path id k m'
        ]
      ]

  -- `addDevice`.
  unfoldable pub add_device : Str → Action (KbdManager D poll) Unit
  add_device path m =
      let (r, w) = open_keyboard D O path m.devices in
      elim r [
        | err e ↦ (err e, record m { devices = w })
        | ok k ↦ (ok tt, record m { kbds = m.kbds ++ k ∷ []; devices = w })
      ]

  -- The keyboard at the end of `kbds` is locked.
  abbrev pub lock_last : ℕ → Action (KbdManager D poll) Unit
  lock_last id m = elim (get_elem? m.kbds id) [
    | none ↦ (ok tt, m)
    | some k ↦ let (r, k', m') = on_kbd D poll id k (lock D) m in (r, m')
  ]

  -- The end of the callback, for a keyboard that is taken to be new.
  unfoldable pub plug_in : Str → Action (KbdManager D poll) Unit
  plug_in event_path m =
      (add_device event_path >> lock_last (length m.kbds) >> λ n.
      (ok tt, update_available D poll n))
        m

  -- The callback of `startHotplugWatcher`; `real` is `realpath_safe`, `ready` what `waitForDevice`
  -- returns for a path. It returns true in each case.
  unfoldable pub hotplug : (Str → Str) → (Str → Bool) → Bool → Str → Action (KbdManager D poll) Unit
  hotplug real ready allow_hotplug path m =
      let new_device = λ (_ : Unit {0}) (n : KbdManager D poll).
        if not allow_hotplug
        then (ok tt, n)
        else if not (by_id_is_keyboard path)
        then (ok tt, n)
        else plug_in (real path) n in
      if str_eq path by_id_dir
      then (ok tt, m)
      else if not (ready (real path))
      then (ok tt, m)
      else (replug path >>= new_device) m

  -- `setup`: its loop is that of the destructor of `KBDUnlock`.
  unfoldable pub setup : Action (KbdManager D poll) Unit
  setup m = (lock_from D poll (length m.kbds) 0 >> λ n. (ok tt, update_available D poll n)) m
