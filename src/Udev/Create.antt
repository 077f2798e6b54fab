-- ===== src/Udev/Create.antt =====
-- `getDevice`, the constructor and the destructor of src/UDevice.cpp, with src/Version.cpp: how the
-- virtual keyboard is made.
pub mod Keys
pub mod Found
mod Examples
use hawck.Prelude.{
  ℕ, zero, suc, ◌+◌, ◌-◌, ◌≡◌, ◌<◌, refl, sym, ap, ◌∙◌, ◌⊎◌, inl, inr, Bool, true, false, ◌&&◌,
  ◌||◌, List, [], ◌∷◌, ◌++◌, Option, none, some, Str, codes, str_eq, take, length, ltb, leb, ◌==◌,
  ==_iff, arith, if◌then◌else◌, Bool-cases, Option-cases,
}
use hawck.Effect.{Result, ok, err, system_error, Action, ◌>>=◌, ◌>>◌, proceed, Result-cases, >>=-ok}
use hawck.Udev.Release.{parse_release}

-- What is called to make the device. `keys` are the key codes that are enabled on a descriptor, in
-- order, and `is_open` which descriptors are open; `uname` gives the
-- release of the kernel, and `kernel_version` is the macro KERNEL_VERSION, whose values are in the order
-- of the versions.
pub record Creation : Type 1 where
  pub W : Type 0
  pub open_uinput : W → Option ℕ × W
  pub set_evbit : ℕ → W → Bool × W
  pub set_keybit : ℕ → ℕ → W → Bool × W
  pub dev_setup : ℕ → W → Bool × W
  pub dev_create : ℕ → W → Bool × W
  pub dev_destroy : ℕ → W → W
  pub entries : W → List Str
  pub open_device : Str → W → Option ℕ × W
  pub device_name : ℕ → W → Str
  pub close : ℕ → W → W
  pub usleep : ℕ → W → W
  pub kernel_version : ℕ → ℕ → ℕ → ℕ
  pub uname : Option Str
  pub keys : W → List ℕ
  pub kernel_version-order :
      (a b c minor : ℕ)
      → b < 256
      → c < 256
      → minor < 256
      → ltb (kernel_version a b c) (kernel_version 5 minor 0) ≡ (ltb a 5 || (a == 5 && ltb b minor))
  pub is_open : W → ℕ → Bool
  pub keys-open_uinput : (w : W) → keys (open_uinput w).1 ≡ keys w
  pub keys-set_evbit : (fd : ℕ) (w : W) → keys (set_evbit fd w).1 ≡ keys w
  pub keys-set_keybit :
      (fd key : ℕ) (w : W)
      → (set_keybit fd key w).0 ≡ true
      → keys (set_keybit fd key w).1 ≡ keys w ++ key ∷ []
  pub keys-dev_setup : (fd : ℕ) (w : W) → keys (dev_setup fd w).1 ≡ keys w
  pub keys-dev_create : (fd : ℕ) (w : W) → keys (dev_create fd w).1 ≡ keys w
  pub keys-open_device : (path : Str) (w : W) → keys (open_device path w).1 ≡ keys w
  pub keys-close : (fd : ℕ) (w : W) → keys (close fd w) ≡ keys w
  pub keys-usleep : (us : ℕ) (w : W) → keys (usleep us w) ≡ keys w
  pub open-device :
      (path : Str) (w : W) (fd n : ℕ)
      → (open_device path w).0 ≡ some fd
      → is_open (open_device path w).1 n ≡ (if fd == n then true else is_open w n)
  pub open-device_failed :
      (path : Str) (w : W) (n : ℕ)
      → (open_device path w).0 ≡ none
      → is_open (open_device path w).1 n ≡ is_open w n
  pub open-fresh :
      (path : Str) (w : W) (fd : ℕ) → (open_device path w).0 ≡ some fd → is_open w fd ≡ false
  pub open-close :
      (fd n : ℕ) (w : W) → is_open (close fd w) n ≡ (if fd == n then false else is_open w n)

module _ (C : Creation) where
  open C use {W}

  -- `getDevice`, on the entries of /dev/input.
  unfoldable pub get_device : Str → List Str → W → Option ℕ × W
  get_device by_name [] w = (none, w)
  get_device by_name (entry ∷ entries) w =
      let (opened, w') = C.open_device entry w in
      let next = get_device by_name entries w' in
      elim opened [
        | none ↦ next
        | some fd ↦
            let rest = get_device by_name entries (C.close fd w') in
            if str_eq (C.device_name fd w') by_name then (some fd, w') else rest
      ]

  -- `getLinuxVersionCode`.
  unfoldable pub get_linux_version_code : Result ℕ
  get_linux_version_code = elim C.uname [
    | none ↦ err system_error
    | some release ↦ elim (parse_release release) [
      | none ↦ err system_error
      | some (major, minor, patch) ↦ ok (C.kernel_version major minor patch)
    ]
  ]

  -- The number of keys that the running kernel does not know, of a program that was built for another.
  unfoldable pub newer_keys : ℕ → ℕ → ℕ
  newer_keys built cur_ver =
      let missing = λ (minor n : ℕ).
        if leb (C.kernel_version 5 minor 0) built && ltb cur_ver (C.kernel_version 5 minor 0)
        then n
        else 0 in
      missing 10 4 + missing 6 1 + missing 5 37

  -- The loop over `ALL_KEYS`, on its first keys.
  unfoldable pub set_keys : ℕ → List ℕ → Action W Unit
  set_keys fd [] w = (ok tt, w)
  set_keys fd (key ∷ keys) w =
      let (fine, w') = C.set_keybit fd key w in
      let rest = set_keys fd keys w' in if fine then rest else (err system_error, w')

  -- The loop that looks for the new device, on the number of times that it sleeps: the counter of errors
  -- goes from 0 to 100.
  unfoldable pub await_device : ℕ → Str → Action W ℕ
  await_device zero name w =
      let (found, w') = get_device name (C.entries w) w in
      elim found [ none ↦ (err system_error, w') | some dfd ↦ (ok dfd, w') ]
  await_device (suc sleeps) name w =
      let (found, w') = get_device name (C.entries w) w in
      let again = await_device sleeps name (C.usleep 1000 w') in
      elim found [ none ↦ again | some dfd ↦ (ok dfd, w') ]

  abbrev pub checked : (W → Bool × W) → Action W Unit
  checked call w = let (fine, w') = call w in if fine then (ok tt, w') else (err system_error, w')

  -- What follows the setting of the event bit, on the keys to enable.
  abbrev pub finish_device : List ℕ → Str → ℕ → Action W (ℕ × ℕ)
  finish_device some_keys name fd =
      set_keys fd some_keys
      >> checked (C.dev_setup fd)
      >> checked (C.dev_create fd)
      >> (await_device 101 name >>= λ dfd v. (ok (fd, dfd), v))

  -- The constructor, of a program built for a kernel from 5.5 on: the descriptors `fd` and `dfd`.
  unfoldable pub make_device : ℕ → List ℕ → Str → Action W (ℕ × ℕ)
  make_device built all_keys name w =
      let (opened, w1) = C.open_uinput w in
      elim opened [
        | none ↦ (err system_error, w1)
        | some fd ↦
            (checked (C.set_evbit fd) >>= λ _ u. elim get_linux_version_code [
              | err e ↦ (err e, u)
              | ok cur_ver ↦
                  finish_device (take (length all_keys - newer_keys built cur_ver) all_keys) name fd
                    u
            ])
              w1
      ]

  unfoldable pub destroy_device : ℕ × ℕ → W → W
  destroy_device (fd, dfd) w = C.close dfd (C.close fd (C.dev_destroy fd w))
