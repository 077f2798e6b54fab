-- ===== src/Combo/Fires.antt =====
-- When a combo of src/KeyCombo.hpp fires, on streams of events in which keys go down and up in turn.
use hawck.Prelude.{
  ℕ, ◌≤◌, ◌≡◌, refl, sym, ap, ◌∙◌, true, false, List, [], ◌∷◌, arith, length, elem, All, ◌==◌,
  if◌then◌else◌,
}
use hawck.Prelude.Int.{ℤ, pos, incr, decr, is_neg, pos_part}
use hawck.Input.{KbdAction, key_val_down}
use hawck.Combo.{KeyCombo, count_key, check}
use hawck.Combo.Held.{
  Keys, all_up, press, Fits, Consistent, Distinct, held_after, combo_after, Quiet, held_count,
  key_facts,
}

count_key-elem :
    (ks : List ℕ) (code value : ℕ) (n : ℤ)
    → count_key ks code value n
      ≡ (if elem code ks then (if value == key_val_down then incr n else decr n) else n)
unfolding count_key
count_key-elem [] code value n = refl
count_key-elem (k ∷ ks) code value n = ground (arith, count_key-elem ks code value n)

-- `num_seq` is a number, at most that of the held keys of the sequence.
abbrev AtMost : KeyCombo → Keys → Type 0
AtMost c held = (is_neg c.num_seq ≡ false) × (pos_part c.num_seq ≤ held_count held c.key_seq)

module _ (c : KeyCombo) (a : KbdAction) where
  key_seq-check : (check c a).1.key_seq ≡ c.key_seq
  unfolding check
  key_seq-check = ground arith

  activator-check : (check c a).1.activator ≡ c.activator
  unfolding check
  activator-check = ground arith

module _ (c : KeyCombo) (held : Keys) (a : KbdAction) (d : Distinct c.key_seq)
    (f : Fits held a) where
  -- The exact count, as long as nothing fires.
  check_exact :
      c.num_seq ≡ pos (held_count held c.key_seq)
      → (check c a).0 ≡ false
      → (check c a).1.num_seq ≡ pos (held_count (press held a) c.key_seq)
  unfolding check
  check_exact e q = ground (
    arith,
    key_facts held a c.key_seq d f,
    count_key-elem c.key_seq a.ev.code a.ev.value c.num_seq,
  )

  -- At most the count, whatever has fired before.
  check-AtMost : AtMost c held → AtMost (check c a).1 (press held a)
  unfolding check
  check-AtMost m = ground (
    arith,
    key_facts held a c.key_seq d f,
    count_key-elem c.key_seq a.ev.code a.ev.value c.num_seq,
  )

  fires_held :
      AtMost c held
      → (check c a).0 ≡ true
      → (a.ev.code ≡ c.activator)
        × (a.ev.value ≡ key_val_down)
        × (length c.key_seq ≤ held_count held c.key_seq)
  unfolding check
  fires_held m q = ground arith

held_count-le : (held : Keys) (ks : List ℕ) → held_count held ks ≤ length ks
unfolding held_count
held_count-le held [] = omega arith
held_count-le held (k ∷ ks) = ground (arith, held_count-le held ks)

held_count-full :
    (held : Keys) (ks : List ℕ) → length ks ≤ held_count held ks → All (λ k. held k ≡ true) ks
unfolding held_count
held_count-full held [] h = tt
held_count-full held (k ∷ ks) h =
    let now : held k ≡ true = ground (arith, held_count-le held ks) in
    (now, held_count-full held ks (ground arith))

held_count-All :
    (held : Keys) (ks : List ℕ) → All (λ k. held k ≡ true) ks → held_count held ks ≡ length ks
unfolding held_count
held_count-All held [] h = refl
held_count-All held (k ∷ ks) h = ground (arith, held_count-All held ks h.1)

-- What stays fixed along a run.
key_seq-after : (c : KeyCombo) (t : List KbdAction) → (combo_after c t).key_seq ≡ c.key_seq
unfolding combo_after
key_seq-after c [] = refl
key_seq-after c (a ∷ rest) = key_seq-after (check c a).1 rest ∙ key_seq-check c a

activator-after : (c : KeyCombo) (t : List KbdAction) → (combo_after c t).activator ≡ c.activator
unfolding combo_after
activator-after c [] = refl
activator-after c (a ∷ rest) = activator-after (check c a).1 rest ∙ activator-check c a

AtMost-after :
    (c : KeyCombo) (held : Keys) (t : List KbdAction)
    → Distinct c.key_seq
    → Consistent held t
    → AtMost c held
    → AtMost (combo_after c t) (held_after held t)
unfolding combo_after held_after
AtMost-after c held [] d f m = m
AtMost-after c held (a ∷ rest) d f m =
    AtMost-after (check c a).1 (press held a) rest (rw (key_seq-check c a) d) f.1
      (check-AtMost c held a d f.0 m)

exact_after :
    (c : KeyCombo) (held : Keys) (t : List KbdAction)
    → Distinct c.key_seq
    → Consistent held t
    → Quiet c t
    → c.num_seq ≡ pos (held_count held c.key_seq)
    → (combo_after c t).num_seq ≡ pos (held_count (held_after held t) c.key_seq)
unfolding combo_after held_after
exact_after c held [] d f q e = e
exact_after c held (a ∷ rest) d f q e =
    exact_after (check c a).1 (press held a) rest (rw (key_seq-check c a) d) f.1 q.1
      (rw (key_seq-check c a) (check_exact c held a d f.0 e q.0))
    ∙ ap (λ ks. pos (held_count (held_after (press held a) rest) ks)) (key_seq-check c a)

held_count-All_up : (ks : List ℕ) → held_count all_up ks ≡ 0
unfolding held_count
held_count-All_up [] = refl
held_count-All_up (k ∷ ks) = held_count-All_up ks

module _ (c : KeyCombo) (t : List KbdAction) (a : KbdAction) where
  -- Of a combination in whose sequence no key stands twice, from `num_seq` 0 and all keys up, on a stream of events in which keys go down and up in turn:
  -- when an event fires the combo, it is the activator going down, and every key of the sequence is
  -- held.
  pub fires_only_held :
      Distinct c.key_seq
      → c.num_seq ≡ pos 0
      → Consistent all_up t
      → Fits (held_after all_up t) a
      → (check (combo_after c t) a).0 ≡ true
      → (a.ev.code ≡ c.activator)
        × (a.ev.value ≡ key_val_down)
        × All (λ k. held_after all_up t k ≡ true) c.key_seq
  fires_only_held d e f g q =
      let d' : Distinct (combo_after c t).key_seq = rw (key_seq-after c t) d in
      let m : AtMost c all_up = (ground arith, ground arith) in
      let (code, value, full) =
        fires_held (combo_after c t) (held_after all_up t) a d' g (AtMost-after c all_up t d f m)
          q in
      (
        code ∙ activator-after c t,
        value,
        held_count-full (held_after all_up t) c.key_seq (rw (key_seq-after c t) at full),
      )

  -- From the same start, and as long as the combo has not fired: the activator going down while every
  -- key of the sequence is held fires it.
  pub held_fires :
      Distinct c.key_seq
      → c.num_seq ≡ pos 0
      → Consistent all_up t
      → Quiet c t
      → a.ev.code ≡ c.activator
      → a.ev.value ≡ key_val_down
      → All (λ k. held_after all_up t k ≡ true) c.key_seq
      → (check (combo_after c t) a).0 ≡ true
  unfolding check
  held_fires d e f q u v h = ground (
    arith,
    key_seq-after c t,
    activator-after c t,
    exact_after c all_up t d f q (e ∙ ap pos (sym (held_count-All_up c.key_seq))),
    held_count-All (held_after all_up t) c.key_seq h,
  )
