-- ===== src/Udev/Create/Keys.antt =====
-- The keys that the constructor of src/UDevice.cpp enables.
use mathlib.Core.List.{append-nil, append_assoc}
use hawck.Prelude.{
  ℕ, zero, suc, ◌-◌, ◌≡◌, ◌<◌, ◌&&◌, ◌||◌, ◌==◌, ltb, leb, true, false, some, arith, if◌then◌else◌,
  refl, sym, ap, ◌∙◌, inl, inr, Bool, List, [], ◌∷◌, ◌++◌, Str, str_eq, take, length, Bool-cases,
  Option-cases,
}
use hawck.Effect.{Result, ok, err, system_error, Action, ◌>>=◌, ◌>>◌, Result-cases, >>=-ok}
use hawck.Udev.Release.{parse_release}
use hawck.Udev.Create.{
  Creation, get_device, get_linux_version_code, newer_keys, set_keys, await_device, checked,
  make_device, finish_device,
}

ok_inj : {A : Type 0} {a b : A} → ◌≡◌ {A = Result A} (ok a) (ok b) → a ≡ b
ok_inj h = cc h

module _ (C : Creation) where
  open C use {W}

  set_keys-keys :
      (fd : ℕ) (keys : List ℕ) (w : W)
      → (set_keys C fd keys w).0 ≡ ok tt
      → C.keys (set_keys C fd keys w).1 ≡ C.keys w ++ keys
  unfolding set_keys
  set_keys-keys fd [] w h = sym (append-nil (C.keys w))
  set_keys-keys fd (key ∷ keys) w h =
      let w' = (C.set_keybit fd key w).1 in
      elim (Bool-cases (C.set_keybit fd key w).0) [
        | inl fine ↦
            let next : set_keys C fd (key ∷ keys) w ≡ set_keys C fd keys w' =
              rw (fine, set_keys) refl in
            rw next (
              set_keys-keys fd keys w' (sym (ap (λ r. r.0) next) ∙ h)
              ∙ ap (λ l. l ++ keys) (C.keys-set_keybit fd key w fine)
              ∙ append_assoc (C.keys w) (key ∷ []) keys)
        | inr failed ↦
            let stops : (set_keys C fd (key ∷ keys) w).0 ≡ err system_error =
              rw (failed, set_keys) refl in
            absurd (cc (stops, h))
      ]

  checked_state : (call : W → Bool × W) (w : W) → (checked C call w).1 ≡ (call w).1
  checked_state call w = elim (Bool-cases (call w).0) [ inl e ↦ rw e refl | inr e ↦ rw e refl ]

  get_device-keys :
      (by_name : Str) (entries : List Str) (w : W)
      → C.keys (get_device C by_name entries w).1 ≡ C.keys w
  unfolding get_device
  get_device-keys by_name [] w = refl
  get_device-keys by_name (entry ∷ entries) w =
      let w' = (C.open_device entry w).1 in
      let same = C.keys-open_device entry w in
      elim (Option-cases (C.open_device entry w).0) [
        | inl failed ↦ rw (failed, get_device) (get_device-keys by_name entries w' ∙ same)
        | inr (fd, opened) ↦ elim (Bool-cases (str_eq (C.device_name fd w') by_name)) [
          | inl named ↦ rw (opened, named, get_device) same
          | inr other ↦
              rw (opened, other, get_device)
                (get_device-keys by_name entries (C.close fd w') ∙ C.keys-close fd w' ∙ same)
        ]
      ]

  await_device-keys :
      (sleeps : ℕ) (name : Str) (w : W) → C.keys (await_device C sleeps name w).1 ≡ C.keys w
  unfolding await_device
  await_device-keys zero name w =
      let same = get_device-keys name (C.entries w) w in
      elim (Option-cases (get_device C name (C.entries w) w).0) [
        | inl e ↦ rw (e, await_device) same
        | inr (dfd, e) ↦ rw (e, await_device) same
      ]
  await_device-keys (suc sleeps) name w =
      let same = get_device-keys name (C.entries w) w in
      let w' = (get_device C name (C.entries w) w).1 in
      elim (Option-cases (get_device C name (C.entries w) w).0) [
        | inl e ↦
            rw (e, await_device)
              (await_device-keys sleeps name (C.usleep 1000 w') ∙ C.keys-usleep 1000 w' ∙ same)
        | inr (dfd, e) ↦ rw (e, await_device) same
      ]

  finish_device-keys :
      (some_keys : List ℕ) (name : Str) (fd : ℕ) (w : W) (r : ℕ × ℕ)
      → (finish_device C some_keys name fd w).0 ≡ ok r
      → C.keys (finish_device C some_keys name fd w).1 ≡ C.keys w ++ some_keys
  finish_device-keys some_keys name fd w r h =
      let m1 = set_keys C fd some_keys in
      let m2 = m1 >> checked C (C.dev_setup fd) in
      let m3 = m2 >> checked C (C.dev_create fd) in
      let last : Action W (ℕ × ℕ) = await_device C 101 name >>= λ dfd v. (ok (fd, dfd), v) in
      let (u3, ok3, eq3) = >>=-ok m3 (λ _. last) w r h in
      let (u2, ok2, eq2) = >>=-ok m2 (λ _. checked C (C.dev_create fd)) w u3 ok3 in
      let (u1, ok1, eq1) = >>=-ok m1 (λ _. checked C (C.dev_setup fd)) w u2 ok2 in
      let end_ok : (last (m3 w).1).0 ≡ ok r = sym (ap (λ x. x.0) eq3) ∙ h in
      let (dfd, found, eq4) =
        >>=-ok (await_device C 101 name) (λ dfd v. (ok (fd, dfd), v)) (m3 w).1 r end_ok in
      ap (λ x. C.keys x.1) eq3
      ∙ ap (λ x. C.keys x.1) eq4
      ∙ await_device-keys 101 name (m3 w).1
      ∙ ap (λ x. C.keys x.1) eq2
      ∙ ap C.keys (checked_state (C.dev_create fd) (m2 w).1)
      ∙ C.keys-dev_create fd (m2 w).1
      ∙ ap (λ x. C.keys x.1) eq1
      ∙ ap C.keys (checked_state (C.dev_setup fd) (m1 w).1)
      ∙ C.keys-dev_setup fd (m1 w).1
      ∙ set_keys-keys fd some_keys w ok1

  started :
      (built : ℕ) (all_keys : List ℕ) (name : Str) (w : W) (r : ℕ × ℕ)
      → (make_device C built all_keys name w).0 ≡ ok r
      → (fd : ℕ) × (v : W) × (cur_ver : ℕ) × (get_linux_version_code C ≡ ok cur_ver)
        × (C.keys v ≡ C.keys w)
        × (make_device C built all_keys name w
            ≡ finish_device C
                (take (length all_keys - newer_keys C built cur_ver) all_keys)
                name
                fd
                v)
  unfolding make_device
  started built all_keys name w r h =
      let w1 = (C.open_uinput w).1 in
      elim (Option-cases (C.open_uinput w).0) [
        | inl failed ↦
            let stops : (make_device C built all_keys name w).0 ≡ err system_error =
              rw (failed, make_device) refl in
            absurd (cc (stops, h))
        | inr (fd, opened) ↦ elim (Result-cases (get_linux_version_code C)) [
          | inr (e, unknown) ↦
              let stop : (Unit {0} → Action W (ℕ × ℕ)) = λ _ u. (err e, u) in
              let next : make_device C built all_keys name w
                  ≡ (checked C (C.set_evbit fd) >>= stop) w1 =
                rw (opened, unknown, make_device) refl in
              let (u, fine, eq) =
                >>=-ok (checked C (C.set_evbit fd)) stop w1 r (sym (ap (λ x. x.0) next) ∙ h) in
              absurd (cc (h, ap (λ x. x.0) next, ap (λ x. x.0) eq))
          | inl (cur_ver, known) ↦
              let rest : (ℕ → Unit {0} → Action W (ℕ × ℕ)) = λ n _.
                finish_device C (take (length all_keys - newer_keys C built n) all_keys) name fd in
              let next : make_device C built all_keys name w
                  ≡ (checked C (C.set_evbit fd) >>= rest cur_ver) w1 =
                rw (opened, known, make_device) refl in
              let (u, fine, eq) =
                >>=-ok (checked C (C.set_evbit fd)) (rest cur_ver) w1 r
                  (sym (ap (λ x. x.0) next) ∙ h) in
              (
                fd,
                (checked C (C.set_evbit fd) w1).1,
                cur_ver,
                known,
                ap C.keys (checked_state (C.set_evbit fd) w1)
                    ∙ C.keys-set_evbit fd w1
                    ∙ C.keys-open_uinput w,
                next ∙ eq,
              )
        ]
      ]

  make_device-newer_keys :
      (built : ℕ) (all_keys : List ℕ) (name : Str) (w : W) (r : ℕ × ℕ)
      → (make_device C built all_keys name w).0 ≡ ok r
      → (cur_ver : ℕ) × (get_linux_version_code C ≡ ok cur_ver)
        × (C.keys (make_device C built all_keys name w).1
            ≡ C.keys w ++ take (length all_keys - newer_keys C built cur_ver) all_keys)
  make_device-newer_keys built all_keys name w r h =
      let (fd, v, cur_ver, known, same, eq) = started built all_keys name w r h in
      let some_keys = take (length all_keys - newer_keys C built cur_ver) all_keys in
      (
        cur_ver,
        known,
        ap (λ x. C.keys x.1) eq
            ∙ finish_device-keys some_keys name fd v r (sym (ap (λ x. x.0) eq) ∙ h)
            ∙ ap (λ l. l ++ some_keys) same,
      )

  -- Kernels before 5.10 lack the last 4 keys, those before 5.6 one more, and those before 5.5 another 37.
  abbrev pub unknown_to : ℕ → ℕ → ℕ
  unknown_to major minor =
      if ltb major 5 || (major == 5 && ltb minor 5)
      then 42
      else if major == 5 && ltb minor 6
      then 5
      else if major == 5 && ltb minor 10
      then 4
      else 0

  newer_keys-unknown_to :
      (a b c a' b' c' : ℕ)
      → b < 256
      → c < 256
      → b' < 256
      → c' < 256
      → (ltb a 5 || (a == 5 && ltb b 10)) ≡ false
      → newer_keys C (C.kernel_version a b c) (C.kernel_version a' b' c') ≡ unknown_to a' b'
  unfolding newer_keys
  newer_keys-unknown_to a b c a' b' c' hb hc hb' hc' late =
      let cur10 = C.kernel_version-order a' b' c' 10 hb' hc' (omega arith) in
      let cur6 = C.kernel_version-order a' b' c' 6 hb' hc' (omega arith) in
      let cur5 = C.kernel_version-order a' b' c' 5 hb' hc' (omega arith) in
      let has : ((minor : ℕ)
          → minor < 11
          → leb (C.kernel_version 5 minor 0) (C.kernel_version a b c) ≡ true) =
        λ minor small.
          let order = C.kernel_version-order a b c minor hb hc (omega arith) in
          ground (arith, order, late, small) in
      rw (has 10 (omega arith), has 6 (omega arith), has 5 (omega arith), cur10, cur6, cur5)
        (ground arith)

  version_read :
      (release : Str) (a b c : ℕ)
      → C.uname ≡ some release
      → parse_release release ≡ some (a, b, c)
      → get_linux_version_code C ≡ ok (C.kernel_version a b c)
  unfolding get_linux_version_code
  version_read release a b c found read = rw (found, get_linux_version_code) (rw read refl)

  -- Of a program that was built for a kernel from 5.10 on: if the constructor does not throw, and the
  -- release of the running kernel is a.b.c, of which b and c are below 256, then the keys that it has
  -- enabled are the first of `ALL_KEYS`, in their order, without the last 42 if the kernel is older than
  -- 5.5, without the last 5 if it is 5.5, without the last 4 if it is one of 5.6 to 5.9, and all else.
  pub make_device-keys :
      (a b c a' b' c' : ℕ) (release : Str) (all_keys : List ℕ) (name : Str) (w : W) (r : ℕ × ℕ)
      → b < 256
      → c < 256
      → b' < 256
      → c' < 256
      → (ltb a 5 || (a == 5 && ltb b 10)) ≡ false
      → C.uname ≡ some release
      → parse_release release ≡ some (a', b', c')
      → (make_device C (C.kernel_version a b c) all_keys name w).0 ≡ ok r
      → C.keys (make_device C (C.kernel_version a b c) all_keys name w).1
        ≡ C.keys w ++ take (length all_keys - unknown_to a' b') all_keys
  make_device-keys a b c a' b' c' release all_keys name w r hb hc hb' hc' late found read h =
      let (cur_ver, known, keys) =
        make_device-newer_keys (C.kernel_version a b c) all_keys name w r h in
      let same : cur_ver ≡ C.kernel_version a' b' c' =
        ok_inj (sym known ∙ version_read release a' b' c' found read) in
      keys
      ∙ ap
          (λ v.
            C.keys w ++ take (length all_keys - newer_keys C (C.kernel_version a b c) v) all_keys)
          same
      ∙ ap (λ n. C.keys w ++ take (length all_keys - n) all_keys)
          (newer_keys-unknown_to a b c a' b' c' hb hc hb' hc' late)
