-- ===== src/Kbdb.antt =====
-- src/KBDB.cpp, src/KBDB.hpp: the names of keyboards, which the macro daemon finds in sysfs.
pub mod Names
mod Examples
use mathlib.Core.Path.{subst}
use hawck.Prelude.{
  ℕ, ◌≡◌, ◌↔◌, refl, ap, Bool, true, false, ◌&&◌, List, [], ◌∷◌, ◌++◌, Option, none, some, Str,
  codes, ◌==◌, ==_iff, arith, if◌then◌else◌,
}
use hawck.Prelude.Maps.{Key, lookup, insert}
use hawck.Input.{InputId}
use hawck.Effect.{Result, ok, err, system_error, Action}
use hawck.Keyboard.Opening.{same_id, decimal, underscored}
use hawck.Keyboard.Identity.{same_id_refl}
use hawck.Paths.{path_join, string_starts_with}

-- What is read of /sys/class/input: its entries, and the first lines and the hexadecimal numbers of the
-- files below them, if they can be opened.
pub record Sysfs : Type 0 where
  pub entries : List Str
  pub is_directory : Str → Bool
  pub basename : Str → Str
  pub realpath_safe : Str → Str
  pub first_line : Str → Option Str
  pub hex : Str → Option ℕ

pub record KbdInfo : Type 0 where
  pub name : Str
  pub drv : Str
  pub phys : Str
  pub uevent : Str
  pub dev_uevent : Str
  pub id : InputId

-- The strings before they are read.
abbrev pub blank : InputId → KbdInfo
blank id = record { name = []; drv = []; phys = []; uevent = []; dev_uevent = []; id = id }

-- The strings of an id, if the four files could be opened.
abbrev pub filled :
    Option Str → Option Str → Option Str → Option Str → Str → KbdInfo → Result KbdInfo
filled none phys uevent dev_uevent drv info = err system_error
filled (some name) none uevent dev_uevent drv info = err system_error
filled (some name) (some phys) none dev_uevent drv info = err system_error
filled (some name) (some phys) (some uevent) none drv info = err system_error
filled (some name) (some phys) (some uevent) (some dev_uevent) drv info =
    ok (record info {
      name = name;
      drv = drv;
      phys = phys;
      uevent = uevent;
      dev_uevent = dev_uevent;
    })

-- `operator==` on ids.
pub same_id_iff : (a b : InputId) → (same_id a b ≡ true) ↔ (a ≡ b)
same_id_iff a b = (
  λ h.
      let bustype : a.bustype ≡ b.bustype = (==_iff a.bustype b.bustype).0 (ground (arith, h)) in
      let vendor : a.vendor ≡ b.vendor = (==_iff a.vendor b.vendor).0 (ground (arith, h)) in
      let product : a.product ≡ b.product = (==_iff a.product b.product).0 (ground (arith, h)) in
      let version : a.version ≡ b.version = (==_iff a.version b.version).0 (ground (arith, h)) in
      λ i. record {
        bustype = bustype i;
        vendor = vendor i;
        product = product i;
        version = version i;
      },
  λ e. subst (λ x. same_id a x ≡ true) e (same_id_refl a),
)

abbrev pub id_key : Key
id_key = record { K = InputId; same = same_id; same_iff = same_id_iff }

module _ (S : Sysfs) where
  -- The id of a device, of which each part is a file.
  unfoldable pub read_cid : Str → Option InputId
  read_cid path =
      let part = λ (name : Str).
        S.hex (path_join (path_join path (codes "device" ∷ codes "id" ∷ [])) (name ∷ [])) in
      elim (part (codes "bustype")) [
        | none ↦ none
        | some bustype ↦ elim (part (codes "vendor")) [
          | none ↦ none
          | some vendor ↦ elim (part (codes "product")) [
            | none ↦ none
            | some product ↦ elim (part (codes "version")) [
              | none ↦ none
              | some version ↦ some (record {
                bustype = bustype;
                vendor = vendor;
                product = product;
                version = version;
              })
            ]
          ]
        ]
      ]

  -- `initFrom`: the files are read in this order, up to the first that cannot be opened.
  unfoldable pub init_from : Str → KbdInfo → Result KbdInfo
  init_from path info =
      let part = λ (name : Str). S.first_line (path_join path (name ∷ [])) in
      let drv =
        S.basename (S.realpath_safe (path_join path (codes "device" ∷ codes "driver" ∷ []))) in
      filled (part (codes "name")) (part (codes "phys")) (part (codes "uevent"))
        (part (codes "device/uevent")) drv info

  abbrev pub is_event_dir : Str → Bool
  is_event_dir path = S.is_directory path && string_starts_with (S.basename path) (codes "event")

  -- The loop of the constructor over the entries.
  unfoldable pub scan : InputId → List Str → KbdInfo → Result KbdInfo
  scan id [] info = ok info
  scan id (path ∷ entries) info =
      let passed = scan id entries info in
      let went_on = λ (r : Result KbdInfo). elim r as (λ _. Result KbdInfo) [
        | err e ↦ err e
        | ok info' ↦ scan id entries info'
      ] in
      if is_event_dir path
      then elim (read_cid path) [
        | none ↦ err system_error
        | some cid ↦
            if same_id cid id
            then went_on (init_from (path_join path (codes "device" ∷ [])) info)
            else passed
      ]
      else passed

  -- The constructor of `KBDInfo`.
  unfoldable pub kbd_info : InputId → Result KbdInfo
  kbd_info id = scan id S.entries (blank id)

-- `KBDInfo::getID`.
unfoldable pub info_id : KbdInfo → Str
info_id info =
    decimal 5 info.id.vendor []
    ++ codes ":"
    ++ decimal 5 info.id.product []
    ++ codes ":"
    ++ underscored info.name

abbrev pub Kbdb : Type 0
Kbdb = List (InputId × KbdInfo)

-- `KBDB::getID`.
unfoldable pub get_id : Sysfs → InputId → Action Kbdb Str
get_id S id db = elim (lookup id_key id db) [
  | some info ↦ (ok (info_id info), db)
  | none ↦ elim (kbd_info S id) [
    | err e ↦ (err e, db)
    | ok info ↦ (ok (info_id info), insert id_key id info db)
  ]
]
