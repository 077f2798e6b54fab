-- ===== src/Udev/Down.antt =====
-- The keys that are down, as `upAll` of src/UDevice.cpp reads them from the bits of EVIOCGKEY.
use mathlib.Core.List.{append-nil, append_assoc}
use hawck.Prelude.{
  ℕ, zero, suc, ◌+◌, ◌-◌, ◌≤◌, ◌≡◌, refl, sym, ap, ap₂, ◌∙◌, Bool, false, ◌&&◌, ◌||◌, List, [], ◌∷◌,
  ◌++◌, arith, length, elem, ltb, leb, if◌then◌else◌, Bool-cases, inl, inr,
}
use hawck.Input.{InputEvent, ev_key, ev_syn}
use hawck.Udev.{Uinput, UDevice, bit_set, masks, event_of, up_bits, up_bytes}

-- The codes of the bits that are set, in ascending order.
unfoldable pub down_bits : List ℕ → ℕ → ℕ → List ℕ
down_bits [] byte key = []
down_bits (bs ∷ rest) byte key =
    let others = down_bits rest byte (key + 1) in if bit_set bs byte then key ∷ others else others

unfoldable pub down_keys : List ℕ → ℕ → List ℕ
unfolding down_bits
down_keys [] key = []
down_keys (byte ∷ bytes) key = down_bits masks byte key ++ down_keys bytes (key + 8)

-- Bit `k` of a byte, and key `k` of the bytes.
abbrev pub bit_at : List ℕ → ℕ → ℕ → Bool
bit_at [] byte k = false
bit_at (bs ∷ rest) byte zero = bit_set bs byte
bit_at (bs ∷ rest) byte (suc k) = bit_at rest byte k

unfoldable pub key_at : List ℕ → ℕ → Bool
key_at [] k = false
key_at (byte ∷ bytes) k = if ltb k 8 then bit_at masks byte k else key_at bytes (k - 8)

elem-append : (c : ℕ) (xs ys : List ℕ) → elem c (xs ++ ys) ≡ (elem c xs || elem c ys)
elem-append c [] ys = refl
elem-append c (x ∷ xs) ys = ground (arith, elem-append c xs ys)

bit_at-step :
    (bs : ℕ) (rest : List ℕ) (byte n k : ℕ)
    → n ≡ suc k
    → bit_at (bs ∷ rest) byte n ≡ bit_at rest byte k
bit_at-step bs rest byte n k e = ap (bit_at (bs ∷ rest) byte) e

elem-down_bits :
    (c : ℕ) (ms : List ℕ) (byte key : ℕ)
    → elem c (down_bits ms byte key) ≡ (leb key c && bit_at ms byte (c - key))
unfolding down_bits
elem-down_bits c [] byte key = ground arith
elem-down_bits c (bs ∷ rest) byte key = elim (Bool-cases (leb (key + 1) c)) [
  | inl above ↦ ground (
    arith,
    elem-down_bits c rest byte (key + 1),
    bit_at-step bs rest byte (c - key) (c - (key + 1)),
  )
  | inr below ↦ ground (arith, elem-down_bits c rest byte (key + 1))
]

bit_at_high : (ms : List ℕ) (byte k : ℕ) → length ms ≤ k → bit_at ms byte k ≡ false
bit_at_high [] byte k h = refl
bit_at_high (bs ∷ rest) byte zero h = absurd (omega arith)
bit_at_high (bs ∷ rest) byte (suc k) h = bit_at_high rest byte k (omega arith)

join_bytes :
    (ms : List ℕ) (byte c key : ℕ) (rest : Bool)
    → length ms ≡ 8
    → ((leb key c && bit_at ms byte (c - key)) || (leb (key + 8) c && rest))
      ≡ (leb key c && (if ltb (c - key) 8 then bit_at ms byte (c - key) else rest))
join_bytes ms byte c key rest e = ground (arith, bit_at_high ms byte (c - key))

-- A code is among the keys that are read from the bytes of a device whose first key is `key` exactly
-- when it is not below `key` and its bit is set.
pub elem-down_keys :
    (c : ℕ) (bytes : List ℕ) (key : ℕ)
    → elem c (down_keys bytes key) ≡ (leb key c && key_at bytes (c - key))
unfolding down_keys key_at
elem-down_keys c [] key = ground arith
elem-down_keys c (byte ∷ bytes) key =
    elem-append c (down_bits masks byte key) (down_keys bytes (key + 8))
    ∙ ap₂ (λ a b. a || b) (elem-down_bits c masks byte key)
        (elem-down_keys c bytes (key + 8)
          ∙ ap (λ k. leb (key + 8) c && key_at bytes k) (omega arith))
    ∙ join_bytes masks byte c key (key_at bytes (c - key - 8)) refl

-- A release of each key, and a report behind it.
unfoldable pub releases : List ℕ → List InputEvent
releases [] = []
releases (key ∷ keys) = event_of ev_key key 0 ∷ event_of ev_syn 0 0 ∷ releases keys

releases-append : (ks ls : List ℕ) → releases (ks ++ ls) ≡ releases ks ++ releases ls
unfolding releases
releases-append [] ls = refl
releases-append (k ∷ ks) ls =
    ap (λ r. event_of ev_key k 0 ∷ event_of ev_syn 0 0 ∷ r) (releases-append ks ls)

module _ (U : Uinput) where
  up_bits-releases :
      (ms : List ℕ) (byte key : ℕ) (d : UDevice U)
      → up_bits U ms byte key d ≡ record d { events = d.events ++ releases (down_bits ms byte key) }
  unfolding up_bits down_bits releases
  up_bits-releases [] byte key d = ap (λ evs. record d { events = evs }) (sym (append-nil d.events))
  up_bits-releases (bs ∷ rest) byte key d = elim (Bool-cases (bit_set bs byte)) [
    | inl set ↦ rw set (
        up_bits-releases rest byte (key + 1) _
        ∙ ap (λ evs. record d { events = evs }) (simp append_assoc))
    | inr clear ↦ rw clear (up_bits-releases rest byte (key + 1) d)
  ]

  -- `upAll` adds a release for each key that is down, in ascending order, to the buffer.
  pub up_bytes-releases :
      (bytes : List ℕ) (key : ℕ) (d : UDevice U)
      → up_bytes U bytes key d ≡ record d { events = d.events ++ releases (down_keys bytes key) }
  unfolding up_bytes down_keys
  up_bytes-releases [] key d =
      unfold releases in ap (λ evs. record d { events = evs }) (sym (append-nil d.events))
  up_bytes-releases (byte ∷ bytes) key d =
      ap (up_bytes U bytes (key + 8)) (up_bits-releases masks byte key d)
      ∙ up_bytes-releases bytes (key + 8) _
      ∙ ap (λ evs. record d { events = evs })
          (append_assoc d.events (releases (down_bits masks byte key))
              (releases (down_keys bytes (key + 8)))
            ∙ ap (◌++◌ d.events)
                (sym (releases-append (down_bits masks byte key) (down_keys bytes (key + 8)))))
