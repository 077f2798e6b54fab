-- ===== src/Udev/Create/Examples.antt =====
-- Tests of the making of the virtual keyboard.
use hawck.Prelude.{
  ℕ, ◌+◌, ◌*◌, ◌≡◌, ◌<◌, ◌&&◌, ◌||◌, ltb, arith, refl, Bool, true, false, List, [], ◌∷◌, ◌++◌,
  Option, none, some, codes, ◌==◌, if◌then◌else◌,
}
use hawck.Udev.Release.{parse_release, number_before, digits_from}
use hawck.Udev.Create.{
  Creation, get_device, get_linux_version_code, newer_keys, set_keys, await_device, make_device,
}
use hawck.Udev.Create.Keys.{make_device-keys}

-- The enabled keys, and the open descriptors. The devices share the descriptor 4.
abbrev State : Type 0
State = List ℕ × (ℕ → Bool)

abbrev open_four : Bool → State → Option ℕ × State
open_four true w = (none, w)
open_four false w = (some 4, (w.0, λ n. if 4 == n then true else w.1 n))

open_four-keys : (b : Bool) (w : State) → (open_four b w).1.0 ≡ w.0
open_four-keys true w = refl
open_four-keys false w = refl

open_four-open :
    (b : Bool) (w : State) (fd n : ℕ)
    → (open_four b w).0 ≡ some fd
    → (open_four b w).1.1 n ≡ (if fd == n then true else w.1 n)
open_four-open true w fd n h = absurd (cc h)
open_four-open false w fd n h = let e : ◌≡◌ {A = ℕ} 4 fd = cc h in rw (← e) refl

open_four-failed :
    (b : Bool) (w : State) (n : ℕ) → (open_four b w).0 ≡ none → (open_four b w).1.1 n ≡ w.1 n
open_four-failed true w n h = refl
open_four-failed false w n h = absurd (cc h)

open_four-fresh :
    (b : Bool) (w : State) (fd : ℕ) → w.1 4 ≡ b → (open_four b w).0 ≡ some fd → w.1 fd ≡ false
open_four-fresh true w fd e h = absurd (cc h)
open_four-fresh false w fd e h = let same : ◌≡◌ {A = ℕ} 4 fd = cc h in rw (← same) e

order :
    (a b c minor : ℕ)
    → b < 256
    → c < 256
    → minor < 256
    → ltb (a * 65536 + b * 256 + c) (5 * 65536 + minor * 256 + 0)
      ≡ (ltb a 5 || (a == 5 && ltb b minor))
order a b c minor hb hc hm = ground arith

abbrev creation : Creation
creation = record {
  W = State;
  open_uinput = λ w. (some 3, w);
  set_evbit = λ fd w. (true, w);
  set_keybit = λ fd key w. (true, (w.0 ++ key ∷ [], w.1));
  dev_setup = λ fd w. (true, w);
  dev_create = λ fd w. (true, w);
  dev_destroy = λ fd w. w;
  entries = λ w. codes "event9" ∷ [];
  open_device = λ path w. open_four (w.1 4) w;
  device_name = λ fd w. codes "Hawck";
  close = λ fd w. (w.0, λ n. if fd == n then false else w.1 n);
  usleep = λ us w. w;
  kernel_version = λ a b c. a * 65536 + b * 256 + c;
  uname = some (codes "5.7.2-arch1");
  keys = λ w. w.0;
  is_open = λ w. w.1;
  kernel_version-order = λ a b c minor hb hc hm. order a b c minor hb hc hm;
  keys-open_uinput = λ w. refl;
  keys-set_evbit = λ fd w. refl;
  keys-set_keybit = λ fd key w h. refl;
  keys-dev_setup = λ fd w. refl;
  keys-dev_create = λ fd w. refl;
  keys-open_device = λ path w. open_four-keys (w.1 4) w;
  keys-close = λ fd w. refl;
  keys-usleep = λ us w. refl;
  open-device = λ path w fd n h. open_four-open (w.1 4) w fd n h;
  open-device_failed = λ path w n h. open_four-failed (w.1 4) w n h;
  open-fresh = λ path w fd h. open_four-fresh (w.1 4) w fd refl h;
  open-close = λ fd n w. refl;
}

abbrev nothing_open : State
nothing_open = ([], λ n. false)

-- Of 6 keys, 4 came with version 5.10.
make_device-keys_example :
    (make_device creation 330240 (1 ∷ 2 ∷ 3 ∷ 4 ∷ 5 ∷ 6 ∷ []) (codes "Hawck") nothing_open).1.0
    ≡ 1 ∷ 2 ∷ []
unfolding make_device set_keys await_device get_device get_linux_version_code newer_keys
    parse_release number_before digits_from
make_device-keys_example =
    make_device-keys creation 5 10 0 5 7 2 (codes "5.7.2-arch1") (1 ∷ 2 ∷ 3 ∷ 4 ∷ 5 ∷ 6 ∷ [])
      (codes "Hawck") nothing_open (3, 4) (omega arith) (omega arith) (omega arith) (omega arith)
      refl refl refl refl

four_unknown : newer_keys creation 330240 329472 ≡ 4
unfolding newer_keys
four_unknown = refl
