-- ===== src/Effect.antt =====
-- Methods that change an object and may throw: the object comes back beside the exception too, as it
-- was when the exception was thrown.

use hawck.Prelude.{◌≡◌, refl, ◌⊎◌, inl, inr}

-- How a method is left before its end: by the exception classes of src/SystemError.hpp,
-- src/UNIXSocket.hpp and src/Keyboard.hpp, or since the process has ended, by a signal or by
-- `std::terminate`, which no handler sees.
pub data Error : Type 0 where
  system_error socket_error keyboard_error process_ended : Error

pub data Result {ℓ} (A : Type ℓ) : Type ℓ where
  ok : A → Result A
  err : Error → Result A

abbrev pub Action {ℓ} : Type ℓ → Type ℓ → Type ℓ
Action S A = S → Result A × S

-- The rest of a method, unless an exception was thrown before it.
abbrev pub proceed {ℓ} : {S A B : Type ℓ} → Result A → S → (A → Action S B) → Result B × S
proceed (ok a) s rest = rest a s
proceed (err e) s rest = (err e, s)

infixl 5 ◌>>=◌ ◌>>◌
abbrev pub ◌>>=◌ {ℓ} : {S A B : Type ℓ} → Action S A → (A → Action S B) → Action S B
◌>>=◌ m rest s = let (r, s') = m s in proceed r s' rest

abbrev pub ◌>>◌ {ℓ} : {S A B : Type ℓ} → Action S A → Action S B → Action S B
m >> rest = m >>= λ _. rest

pub Result-cases :
    {A : Type 0} (r : Result A) → ((a : A) × (r ≡ ok a)) ⊎ ((e : Error) × (r ≡ err e))
Result-cases (ok a) = inl (a, refl)
Result-cases (err e) = inr (e, refl)

-- Inversion of a successful chain.
pub >>=-ok :
    {S A B : Type 0} (m : Action S A) (rest : A → Action S B) (s : S) (b : B)
    → ((m >>= rest) s).0 ≡ ok b
    → (a : A) × ((m s).0 ≡ ok a) × ((m >>= rest) s ≡ rest a (m s).1)
>>=-ok m rest s b h = elim (Result-cases (m s).0) [
  | inl (a, e) ↦ (a, e, rw e refl)
  | inr (x, e) ↦ let stops : ((m >>= rest) s).0 ≡ err x = rw e refl in absurd (cc (stops, h))
]
