-- ===== src/KbdManager/Ready.antt =====
-- `waitForDevice` of src/KBDManager.cpp: it ends, and what it waits for.
use mathlib.Core.Path.{subst}
use hawck.Prelude.{
  ℕ, zero, suc, ◌+◌, ◌*◌, ◌≡◌, ◌<◌, ◌≤◌, ◌↔◌, refl, sym, ap, ◌∙◌, Bool, true, false, not, ◌&&◌,
  Option, none, some, ltb, ◌==◌, ==_iff, arith, if◌then◌else◌, Bool-cases, Option-cases, inl, inr,
}
use hawck.Permissions.{Stat}
use hawck.KbdManager.Hotplug.{
  max_wait, wait_inc, is_char_device, has_permissions, wait_rounds, enough_rounds, wait_for_device,
}

-- What one `stat` says: the device is not there, or is a character device of the group.
abbrev pub passes : ℕ → Option Stat → Bool
passes input_gid none = true
passes input_gid (some st) = is_char_device st && st.st_gid == input_gid

-- A character device of another group.
abbrev pub is_early : ℕ → Option Stat → Bool
is_early input_gid none = false
is_early input_gid (some st) = is_char_device st && not (st.st_gid == input_gid)

-- The bits of `grp_perm` are 8 to 32, so that neither of the bits 4 and 2 is set.
never_has_permissions : (st : Stat) → has_permissions st ≡ false
never_has_permissions st = ground arith

-- A round of the loop, on what `stat` gives, the time after it, and the result of the rounds after it.
abbrev one_round : ℕ → Option Stat → ℕ → Option Bool → Option Bool
one_round gid none time rest = if ltb max_wait time then some false else some true
one_round gid (some st) time rest =
    if not (is_char_device st)
    then some false
    else if ltb max_wait time
    then some false
    else if not (has_permissions st) && not (st.st_gid == gid)
    then rest
    else some true

round_passes :
    (gid : ℕ) (o : Option Stat) (time : ℕ) (rest : Option Bool)
    → passes gid o ≡ true
    → one_round gid o time rest ≡ (if ltb max_wait time then some false else some true)
round_passes gid none time rest h = refl
round_passes gid (some st) time rest h = ground (arith, h, never_has_permissions st)

round_early :
    (gid : ℕ) (o : Option Stat) (time : ℕ) (rest : Option Bool)
    → is_early gid o ≡ true
    → one_round gid o time rest ≡ (if ltb max_wait time then some false else rest)
round_early gid none time rest h = absurd (cc h)
round_early gid (some st) time rest h = ground (arith, h, never_has_permissions st)

round_other :
    (gid : ℕ) (o : Option Stat) (time : ℕ) (rest : Option Bool)
    → passes gid o ≡ false
    → is_early gid o ≡ false
    → one_round gid o time rest ≡ some false
round_other gid none time rest h g = absurd (cc h)
round_other gid (some st) time rest h g = ground (arith, h, g)

module _ (stats : ℕ → Option Stat) (gid : ℕ) where
  wait_rounds-suc :
      (fuel round time : ℕ)
      → wait_rounds (suc fuel) stats gid round time
        ≡ one_round gid
            (stats round)
            (time + wait_inc)
            (wait_rounds fuel stats gid (round + 1) (time + wait_inc))
  unfolding wait_rounds
  wait_rounds-suc fuel round time = elim (Option-cases (stats round)) [
    | inl h ↦ rw (h, wait_rounds, one_round) refl
    | inr (st, h) ↦ rw (h, wait_rounds, one_round) refl
  ]

  wait_rounds_end :
      (fuel round time : ℕ)
      → time ≤ max_wait
      → max_wait < time + fuel * wait_inc
      → (ready : Bool) × (wait_rounds fuel stats gid round time ≡ some ready)
  wait_rounds_end zero round time low h = absurd (omega arith)
  wait_rounds_end (suc fuel) round time low h =
      let time' = time + wait_inc in
      let rest = wait_rounds fuel stats gid (round + 1) time' in
      let step = wait_rounds-suc fuel round time in
      elim (Bool-cases (passes gid (stats round))) [
        | inl here ↦ (
          not (ltb max_wait time'),
          step ∙ round_passes gid (stats round) time' rest here ∙ ground arith,
        )
        | inr away ↦ elim (Bool-cases (is_early gid (stats round))) [
          | inr other ↦ (false, step ∙ round_other gid (stats round) time' rest away other)
          | inl early ↦
              let once = step ∙ round_early gid (stats round) time' rest early in
              elim (Bool-cases (ltb max_wait time')) [
                | inl over ↦ (false, once ∙ ap (λ b. if b then some false else rest) over)
                | inr left ↦
                    let (ready, found) =
                      wait_rounds_end fuel (round + 1) time' (ground (arith, left)) (omega arith) in
                    (ready, once ∙ ap (λ b. if b then some false else rest) left ∙ found)
              ]
        ]
      ]

  -- `waitForDevice` returns: 50001 rounds are enough, whatever `stat` gives in them.
  pub wait_for_device_ends : (ready : Bool) × (wait_for_device stats gid ≡ some ready)
  unfolding wait_for_device
  wait_for_device_ends = wait_rounds_end enough_rounds 0 0 (omega arith) (omega arith)

  -- The device passes in round `i`, and is early in the rounds from `round` on to that.
  abbrev pub PassesAt : ℕ → ℕ → Type 0
  PassesAt round i =
      (i < 50000)
      × (passes gid (stats i) ≡ true)
      × ((j : ℕ) → round ≤ j → j < i → is_early gid (stats j) ≡ true)

  early_first :
      (round i : ℕ) → is_early gid (stats round) ≡ true → PassesAt (round + 1) i → PassesAt round i
  early_first round i early (low, here, before) = (
    low,
    here,
    λ j from to. elim (Bool-cases (j == round)) [
      | inl e ↦ subst (λ k. is_early gid (stats k) ≡ true) (sym ((==_iff j round).0 e)) early
      | inr e ↦ before j (ground (arith, e, from)) to
    ],
  )

  rounds_ready_inv :
      (fuel round time : ℕ)
      → time ≡ round * wait_inc
      → wait_rounds fuel stats gid round time ≡ some true
      → (i : ℕ) × (round ≤ i) × PassesAt round i
  unfolding wait_rounds
  rounds_ready_inv zero round time t h = absurd (cc h)
  rounds_ready_inv (suc fuel) round time t h =
      let time' = time + wait_inc in
      let rest = wait_rounds fuel stats gid (round + 1) time' in
      let step = sym (wait_rounds-suc fuel round time) ∙ h in
      elim (Bool-cases (passes gid (stats round))) [
        | inl here ↦
            let done = sym (round_passes gid (stats round) time' rest here) ∙ step in
            let left : ltb max_wait time' ≡ false = ground (arith, done) in
            (round, omega arith, (ground (arith, left, t), here, λ j from to. absurd (omega arith)))
        | inr away ↦ elim (Bool-cases (is_early gid (stats round))) [
          | inr other ↦ absurd (cc (round_other gid (stats round) time' rest away other, step))
          | inl early ↦
              let once = sym (round_early gid (stats round) time' rest early) ∙ step in
              elim (Bool-cases (ltb max_wait time')) [
                | inl over ↦ absurd (cc (ap (λ b. if b then some false else rest) over, once))
                | inr left ↦
                    let found = sym (ap (λ b. if b then some false else rest) left) ∙ once in
                    let (i, from, p) =
                      rounds_ready_inv fuel (round + 1) time' (omega arith) found in
                    (i, omega arith, early_first round i early p)
              ]
        ]
      ]

  rounds_ready :
      (fuel round time i : ℕ)
      → time ≡ round * wait_inc
      → round ≤ i
      → i < round + fuel
      → PassesAt round i
      → wait_rounds fuel stats gid round time ≡ some true
  rounds_ready zero round time i t from to p = absurd (omega arith)
  rounds_ready (suc fuel) round time i t from to (low, here, before) =
      let time' = time + wait_inc in
      let rest = wait_rounds fuel stats gid (round + 1) time' in
      let in_time : ltb max_wait time' ≡ false = ground (arith, t, from, low) in
      wait_rounds-suc fuel round time ∙ elim (Bool-cases (i == round)) [
        | inl e ↦
            let now = subst (λ k. passes gid (stats k) ≡ true) ((==_iff i round).0 e) here in
            round_passes gid (stats round) time' rest now
            ∙ ap (λ b. if b then some false else some true) in_time
        | inr e ↦
            let later : round < i = ground (arith, e, from) in
            round_early gid (stats round) time' rest (before round (omega arith) later)
            ∙ ap (λ b. if b then some false else rest) in_time
            ∙ rounds_ready fuel (round + 1) time' i (omega arith) (omega arith) (omega arith)
                (low, here, λ j more less. before j (omega arith) less)
      ]

  -- `waitForDevice` returns true exactly if in one of its first 50000 rounds the device is gone or is
  -- a character device of the group, and in the rounds before that one it is a character device of
  -- another group. The permissions of the group have no part in it.
  pub wait_for_device_ready : (wait_for_device stats gid ≡ some true) ↔ ((i : ℕ) × PassesAt 0 i)
  unfolding wait_for_device
  wait_for_device_ready = (
    λ h. let (i, from, p) = rounds_ready_inv enough_rounds 0 0 refl h in (i, p),
    λ (i, (low, here, before)).
        rounds_ready enough_rounds 0 0 i refl (omega arith) (omega arith) (low, here, before),
  )
