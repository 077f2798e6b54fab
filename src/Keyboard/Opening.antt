-- ===== src/Keyboard/Opening.antt =====
-- src/Keyboard.cpp: a keyboard is opened, recognised and reset, and locked at once.
use hawck.Prelude.{
  ℕ, zero, suc, ◌+◌, ◌/◌, ◌%◌, ◌≡◌, Bool, ◌&&◌, [], ◌∷◌, ◌++◌, Option, none, some, Str, codes,
  str_eq, ◌==◌, if◌then◌else◌,
}
use hawck.Prelude.Int.{ℤ}
use hawck.Input.{InputId, zero_id}
use hawck.Effect.{Result, ok, err, system_error, keyboard_error, Action}
use hawck.Keyboard.{Devices, Keyboard, open_state, Held, num_down, grab_device, get}

-- What EVIOCGNAME, EVIOCGUNIQ, EVIOCGPHYS and EVIOCGID say of a device; a call that fails gives the
-- empty string, or no id.
pub record Info : Type 0 where
  pub name : Str
  pub uniq_id : Str
  pub phys : Str
  pub id : Option InputId

-- `open(path, O_RDONLY)` and the four calls on a descriptor. `device_at` is the device that a path leads
-- to, and `opened` the number of open descriptors: opening changes no device and no path.
pub record Opens (D : Devices) : Type 0 where
  pub open_path : Str → D.W → Option ℤ × D.W
  pub info : ℤ → D.W → Info
  pub device_at : Str → D.W → Info
  pub opened : D.W → ℕ
  pub info-open :
      (p : Str) (w : D.W) (fd : ℤ)
      → (open_path p w).0 ≡ some fd
      → info fd (open_path p w).1 ≡ device_at p w
  pub device_at-open : (p q : Str) (w : D.W) → device_at q (open_path p w).1 ≡ device_at q w
  pub opened-open :
      (p : Str) (w : D.W) (fd : ℤ)
      → (open_path p w).0 ≡ some fd
      → opened (open_path p w).1 ≡ opened w + 1

-- `ioctl(fd, EVIOCGID, &dev_id)`, else `memset`.
abbrev pub read_id : Info → InputId
read_id i = elim i.id [ none ↦ zero_id | some id ↦ id ]

-- `memcmp` of two ids.
abbrev pub same_id : InputId → InputId → Bool
same_id a b =
    a.bustype == b.bustype
    && a.vendor == b.vendor
    && a.product == b.product
    && a.version == b.version

-- `ss << n` of a number of 16 bits: five rounds are enough.
unfoldable pub decimal : ℕ → ℕ → Str → Str
decimal zero n digits = digits
decimal (suc rounds) n digits =
    let more = (48 + n % 10) ∷ digits in
    let rest = decimal rounds (n / 10) more in if n / 10 == 0 then more else rest

-- The loop of `getID` over the name.
unfoldable pub underscored : Str → Str
underscored [] = []
underscored (c ∷ name) = (if c == 32 then 95 else c) ∷ underscored name

unfoldable pub get_id : Keyboard → Str
unfolding decimal
get_id k =
    decimal 5 k.dev_id.vendor []
    ++ codes ":"
    ++ decimal 5 k.dev_id.product []
    ++ codes ":"
    ++ underscored k.name

-- The fields that the constructor sets; `state` has the value of the class.
abbrev pub made : Info → ℤ → Keyboard
made i fd = record {
  name = i.name;
  uniq_id = i.uniq_id;
  phys = i.phys;
  dev_id = read_id i;
  fd = fd;
  state = open_state;
}

-- The comparisons of `isMe`.
abbrev pub is_device : Keyboard → Info → Bool
is_device k i = str_eq k.name i.name && str_eq k.uniq_id i.uniq_id && same_id k.dev_id (read_id i)

module _ (D : Devices) (O : Opens D) where
  -- The constructor.
  unfoldable pub open_keyboard : Str → Action D.W Keyboard
  open_keyboard path w =
      let (fd, w') = O.open_path path w in
      elim fd [ none ↦ (err keyboard_error, w') | some fd ↦ (ok (made (O.info fd w') fd), w') ]

  unfoldable pub is_me : Keyboard → Str → Action D.W Bool
  is_me k path w =
      let (fd, w') = O.open_path path w in
      elim fd [
        | none ↦ (err system_error, w')
        | some new_fd ↦ (ok (is_device k (O.info new_fd w')), w')
      ]

  unfoldable pub reset : Str → Action (Held D) Unit
  reset path (k, w) =
      let (fd, w') = O.open_path path w in
      elim fd [ none ↦ (err system_error, (k, w')) | some fd ↦ (ok tt, (record k { fd = fd }, w')) ]

-- `lockSync`, on fuel for its loop: none if there is not enough.
unfoldable pub lock_sync : (D : Devices) → ℕ → Held D → Option (Result (Unit {0}) × Held D)
lock_sync D zero h = none
lock_sync D (suc fuel) h =
    let (got, h') = get D h in
    let rest = lock_sync D fuel h' in
    elim (num_down D h).0 [
      | err e ↦ some (err e, h)
      | ok n ↦
          if n == 0
          then some (grab_device D h)
          else elim got [ ok action ↦ rest | err e ↦ some (err e, h') ]
    ]
