-- ===== src/Kbdb/Names.antt =====
-- The ids that src/KBDB.cpp gives, and those of src/Keyboard.cpp.
use hawck.Prelude.{
  ◌≡◌, refl, sym, ap, ap₂, ◌∙◌, Bool, true, false, ◌&&◌, ◌||◌, List, [], ◌∷◌, ◌++◌, Option, none,
  some, Str, codes, if◌then◌else◌, Bool-cases, Option-cases, inl, inr,
}
use hawck.Prelude.Maps.{lookup, insert, lookup-insert_here}
use hawck.Input.{InputId}
use hawck.Effect.{ok, err, system_error, Result-cases}
use hawck.Paths.{path_join}
use hawck.Keyboard.{Keyboard}
use hawck.Keyboard.Opening.{same_id, decimal, underscored}
use hawck.Keyboard.Opening
use hawck.Kbdb.{
  Sysfs, KbdInfo, blank, filled, id_key, read_cid, init_from, is_event_dir, scan, kbd_info, info_id,
  Kbdb, get_id,
}

-- An id that has been given is given again, without a look at sysfs: whatever has changed there, a
-- keyboard that was not found the first time has an id without a name from then on.
pub get_id_again :
    (S later : Sysfs) (id : InputId) (db : Kbdb) (s : Str)
    → (get_id S id db).0 ≡ ok s
    → get_id later id (get_id S id db).1 ≡ (ok s, (get_id S id db).1)
unfolding get_id
get_id_again S later id db s h = elim (Option-cases (lookup id_key id db)) [
  | inr (info, known) ↦
      let same : get_id S id db ≡ (ok (info_id info), db) = rw (known, get_id) refl in
      let text : ok (info_id info) ≡ ok s = sym (ap (λ r. r.0) same) ∙ h in
      rw (same) (rw (known, get_id) (ap (λ r. (r, db)) text))
  | inl unknown ↦ elim (Result-cases (kbd_info S id)) [
    | inr (e, failed) ↦
        let stops : (get_id S id db).0 ≡ err e = rw (unknown, failed, get_id) refl in
        absurd (cc (stops, h))
    | inl (info, made) ↦
        let db' = insert id_key id info db in
        let first : get_id S id db ≡ (ok (info_id info), db') = rw (unknown, made, get_id) refl in
        let text : ok (info_id info) ≡ ok s = sym (ap (λ r. r.0) first) ∙ h in
        let here = lookup-insert_here id_key id info db in
        rw (first) (rw (here, get_id) (ap (λ r. (r, db')) text))
  ]
]

filled_name :
    (name phys uevent dev_uevent : Option Str) (drv : Str) (info r : KbdInfo)
    → filled name phys uevent dev_uevent drv info ≡ ok r
    → (name ≡ some r.name) × (r.id ≡ info.id)
filled_name none phys uevent dev_uevent drv info r h = absurd (cc h)
filled_name (some name) none uevent dev_uevent drv info r h = absurd (cc h)
filled_name (some name) (some phys) none dev_uevent drv info r h = absurd (cc h)
filled_name (some name) (some phys) (some uevent) none drv info r h = absurd (cc h)
filled_name (some name) (some phys) (some uevent) (some dev_uevent) drv info r h =
    let all : record info {
      name = name;
      drv = drv;
      phys = phys;
      uevent = uevent;
      dev_uevent = dev_uevent;
    }
        ≡ r =
      cc h in
    (ap (λ (x : KbdInfo). some x.name) all, sym (ap (λ (x : KbdInfo). x.id) all))

module _ (S : Sysfs) (id : InputId) where
  -- An entry of the device with the id.
  abbrev pub is_match : Str → Bool
  is_match path =
      is_event_dir S path && elim (read_cid S path) [ none ↦ false | some cid ↦ same_id cid id ]

  abbrev pub any_match : List Str → Bool
  any_match [] = false
  any_match (path ∷ entries) = is_match path || any_match entries

  abbrev pub name_of : Str → Option Str
  name_of path = S.first_line (path_join (path_join path (codes "device" ∷ [])) (codes "name" ∷ []))

  -- Every entry of the device has the name in its file.
  abbrev pub AllNamed : Str → List Str → Type 0
  AllNamed name [] = Unit
  AllNamed name (path ∷ entries) =
      ((if is_match path then name_of path else some name) ≡ some name) × AllNamed name entries

  init_from_name :
      (path : Str) (info r : KbdInfo)
      → init_from S (path_join path (codes "device" ∷ [])) info ≡ ok r
      → (name_of path ≡ some r.name) × (r.id ≡ info.id)
  unfolding init_from
  init_from_name path info r h =
      let dir = path_join path (codes "device" ∷ []) in
      filled_name (name_of path) (S.first_line (path_join dir (codes "phys" ∷ [])))
        (S.first_line (path_join dir (codes "uevent" ∷ [])))
        (S.first_line (path_join dir (codes "device/uevent" ∷ [])))
        (S.basename (S.realpath_safe (path_join dir (codes "device" ∷ codes "driver" ∷ [])))) info r
        h

  if_same : (b : Bool) (name other : Str) → other ≡ name → (if b then name else other) ≡ name
  if_same true name other e = refl
  if_same false name other e = e

  scan_name :
      (entries : List Str) (info r : KbdInfo) (name : Str)
      → scan S id entries info ≡ ok r
      → AllNamed name entries
      → (r.name ≡ (if any_match entries then name else info.name)) × (r.id ≡ info.id)
  unfolding scan
  scan_name [] info r name h all =
      let same : info ≡ r = cc h in
      (sym (ap (λ (x : KbdInfo). x.name) same), sym (ap (λ (x : KbdInfo). x.id) same))
  scan_name (path ∷ entries) info r name h (here, all) = elim (Bool-cases (is_event_dir S path)) [
    | inr other ↦
        let skip : scan S id (path ∷ entries) info ≡ scan S id entries info =
          rw (other, scan) refl in
        rw (other) (scan_name entries info r name (sym skip ∙ h) all)
    | inl event ↦ elim (Option-cases (read_cid S path)) [
      | inl unread ↦
          let stops : scan S id (path ∷ entries) info ≡ err system_error =
            rw (event, unread, scan) refl in
          absurd (cc (stops, h))
      | inr (cid, got) ↦ elim (Bool-cases (same_id cid id)) [
        | inr apart ↦
            let skip : scan S id (path ∷ entries) info ≡ scan S id entries info =
              rw (event, got, apart, scan) refl in
            rw (event, got, apart) (scan_name entries info r name (sym skip ∙ h) all)
        | inl same ↦ elim (Result-cases (init_from S (path_join path (codes "device" ∷ [])) info)) [
          | inr (e, failed) ↦
              let stops : scan S id (path ∷ entries) info ≡ err e =
                rw (event, got, same, failed, scan) refl in
              absurd (cc (stops, h))
          | inl (info', filled) ↦
              let next : scan S id (path ∷ entries) info ≡ scan S id entries info' =
                rw (event, got, same, filled, scan) refl in
              let found : is_match path ≡ true = rw (event, got, same, is_match) refl in
              let (file, kept) = init_from_name path info info' filled in
              let (named, id') = scan_name entries info' r name (sym next ∙ h) all in
              let read : name_of path ≡ some name =
                sym (ap (λ b. if b then name_of path else some name) found) ∙ here in
              let one : info'.name ≡ name = cc (file, read) in
              (rw (found) (named ∙ if_same (any_match entries) name info'.name one), id' ∙ kept)
        ]
      ]
    ]
  ]

-- The id that the database makes for a device is the one that the input daemon has for its keyboard:
-- where the entries of the device in sysfs are there, and all have the name of the keyboard.
pub get_id_agrees :
    (S : Sysfs) (db : Kbdb) (k : Keyboard) (s : Str)
    → lookup id_key k.dev_id db ≡ none
    → AllNamed S k.dev_id k.name S.entries
    → any_match S k.dev_id S.entries ≡ true
    → (get_id S k.dev_id db).0 ≡ ok s
    → s ≡ Opening.get_id k
unfolding get_id Opening.get_id info_id kbd_info
get_id_agrees S db k s unknown named found h = elim (Result-cases (kbd_info S k.dev_id)) [
  | inr (e, failed) ↦
      let stops : (get_id S k.dev_id db).0 ≡ err e = rw (unknown, failed, get_id) refl in
      absurd (cc (stops, h))
  | inl (info, made) ↦
      let first : (get_id S k.dev_id db).0 ≡ ok (info_id info) = rw (unknown, made, get_id) refl in
      let text : s ≡ info_id info = cc (first, h) in
      let (name, id) = scan_name S k.dev_id S.entries (blank k.dev_id) info k.name made named in
      let right : info.name ≡ k.name = name ∙ ap (λ b. if b then k.name else []) found in
      text
      ∙ ap₂
          (λ (i : InputId) (n : Str).
            decimal 5 i.vendor []
            ++ codes ":"
            ++ decimal 5 i.product []
            ++ codes ":"
            ++ underscored n)
          id right
]
