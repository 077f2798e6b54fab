-- ===== src/Inputd/Devices.antt =====
-- The devices that src/hawck-inputd.cpp finds.
use hawck.Prelude.{
  ◌≡◌, refl, sym, ap, ◌∙◌, true, false, not, ◌&&◌, ◌||◌, List, [], ◌∷◌, ◌++◌, Str, str_eq,
  str_eq_iff, str_eq_refl, arith, if◌then◌else◌, Bool-cases, inl, inr,
}
use hawck.Inputd.{Listing, has_device, add_by_id, is_internal, add_by_path, entries, find_devices}

abbrev pub AllDistinct : List Str → Type 0
AllDistinct [] = Unit
AllDistinct (d ∷ devices) = (has_device d devices ≡ false) × AllDistinct devices

str_eq_sym : (a b : Str) → str_eq a b ≡ false → str_eq b a ≡ false
str_eq_sym a b h = elim (Bool-cases (str_eq b a)) [
  | inr e ↦ e
  | inl e ↦ absurd (cc (h, (str_eq_iff a b).1 (sym ((str_eq_iff b a).0 e))))
]

has_device-snoc :
    (d r : Str) (devices : List Str)
    → has_device d (devices ++ r ∷ []) ≡ (has_device d devices || str_eq r d)
has_device-snoc d r [] = ground arith
has_device-snoc d r (x ∷ devices) = ground (arith, has_device-snoc d r devices)

snoc-AllDistinct :
    (r : Str) (devices : List Str)
    → has_device r devices ≡ false
    → AllDistinct devices
    → AllDistinct (devices ++ r ∷ [])
snoc-AllDistinct r [] h all = (refl, tt)
snoc-AllDistinct r (d ∷ devices) h (here, all) =
    let other : str_eq d r ≡ false = ground (arith, h) in
    let rest : has_device r devices ≡ false = ground (arith, h) in
    (
      ground (arith, has_device-snoc d r devices, here, str_eq_sym d r other),
      snoc-AllDistinct r devices rest all,
    )

module _ (L : Listing) where
  add_by_path-AllDistinct :
      (paths devices : List Str) → AllDistinct devices → AllDistinct (add_by_path L paths devices)
  unfolding add_by_path
  add_by_path-AllDistinct [] devices all = all
  add_by_path-AllDistinct (path ∷ paths) devices all =
      let rpath = L.realpath_safe path in
      elim (Bool-cases (has_device rpath devices)) [
        | inl known ↦ rw (known) (add_by_path-AllDistinct paths devices all)
        | inr new ↦ elim (Bool-cases (is_internal L path)) [
          | inr other ↦ rw (new, other) (add_by_path-AllDistinct paths devices all)
          | inl internal ↦
              rw (new, internal)
                (add_by_path-AllDistinct paths (devices ++ rpath ∷ [])
                  (snoc-AllDistinct rpath devices new all))
        ]
      ]

  add_by_path_keeps :
      (d : Str) (paths devices : List Str)
      → has_device d devices ≡ true
      → has_device d (add_by_path L paths devices) ≡ true
  unfolding add_by_path
  add_by_path_keeps d [] devices h = h
  add_by_path_keeps d (path ∷ paths) devices h =
      let rpath = L.realpath_safe path in
      elim (Bool-cases (not (has_device rpath devices) && is_internal L path)) [
        | inr other ↦ rw (other) (add_by_path_keeps d paths devices h)
        | inl new ↦ rw (new) (
            add_by_path_keeps d paths (devices ++ rpath ∷ [])
              (ground (arith, has_device-snoc d rpath devices, h)))
      ]

  add_by_path_finds :
      (path : Str) (paths devices : List Str)
      → has_device path paths ≡ true
      → is_internal L path ≡ true
      → has_device (L.realpath_safe path) (add_by_path L paths devices) ≡ true
  unfolding add_by_path
  add_by_path_finds path [] devices h internal = absurd (cc h)
  add_by_path_finds path (p ∷ paths) devices h internal =
      let rpath = L.realpath_safe p in
      let after =
        if not (has_device rpath devices) && is_internal L p
        then devices ++ rpath ∷ []
        else devices in
      elim (Bool-cases (str_eq p path)) [
        | inr other ↦ add_by_path_finds path paths after (ground (arith, h, other)) internal
        | inl same ↦
            let one = (str_eq_iff p path).0 same in
            let mine : is_internal L p ≡ true = ap (is_internal L) one ∙ internal in
            let there : has_device rpath after ≡ true =
              ground (arith, mine, has_device-snoc rpath rpath devices, str_eq_refl rpath) in
            ap (λ q. has_device (L.realpath_safe q) (add_by_path L paths after)) (sym one)
            ∙ add_by_path_keeps rpath paths after there
      ]

  -- Without devices among the options, and where the entries of by-id lead to different devices, the
  -- daemon listens on no device twice, and every internal keyboard of by-path is among its devices.
  pub find_devices_once :
      (path : Str)
      → AllDistinct (add_by_id L (entries L L.by_id) [])
      → has_device path (entries L L.by_path) ≡ true
      → is_internal L path ≡ true
      → AllDistinct (find_devices L [])
        × (has_device (L.realpath_safe path) (find_devices L []) ≡ true)
  unfolding find_devices
  find_devices_once path distinct listed internal =
      let first = add_by_id L (entries L L.by_id) [] in
      (
        add_by_path-AllDistinct (entries L L.by_path) first distinct,
        add_by_path_finds path (entries L L.by_path) first listed internal,
      )
