-- ===== src/Lua/Script/Failing.antt =====
-- `Script::call` of src/LuaUtils.hpp where the function fails.
use hawck.Prelude.{
  ℕ, suc, ◌+◌, ◌≡◌, ◌≤◌, refl, ap, ◌∙◌, Bool, false, List, ◌∷◌, Option, none, some, Str, codes,
  length, arith,
}
use hawck.Lua.{LuaApi, failed, at, thrown, Kind, Value}
use hawck.Lua.Arguments.{get_elem?-pushed}
use hawck.Lua.Script.{call_r, finish, call}
use hawck.Lua.Script.Callable.{Callable}
use hawck.Lua.Script.Calls.{Plain, length-Plain, ready, call-ready}

module _ (A : LuaApi) (class_name : ℕ → Option Str) (void_id : ℕ) where
  open A use {S, V, G}

  finish-failed :
      (kinds : List Kind) (done : Bool) (s : S) (e : V)
      → done ≡ false
      → at 1 (A.view s).0 ≡ some e
      → finish A class_name void_id kinds (done, s)
        ≡ (thrown (elim (A.error_of e) [ none ↦ codes "Unknown error" | some err ↦ err ]), s)
  unfolding finish
  finish-failed kinds done s e h found = rw (h, A.value_at-view 1 s e found) refl

  -- A call whose function fails throws the message of the `LuaError` that the handler made, or says that
  -- the error is unknown, and leaves two values on the stack: the handler and the error.
  pub call_leaves :
      {n : ℕ} {vs : List Value} {xs : List V} (kinds : List Kind) (name : Str) (s : S) (e : V)
      (g : G)
      → n ≤ 32
      → Callable A (A.view s).1 n (A.global name (A.view s).1)
      → Plain A class_name void_id vs xs
      → A.run (A.global name (A.view s).1) xs (A.view s).1 ≡ failed e g
      → (s' : S) × (call A class_name void_id name vs kinds s ≡ (
        thrown (elim (A.error_of (A.handled A.handler e g)) [
          | none ↦ codes "Unknown error"
          | some err ↦ err
        ]),
        s',
      ))
        × (A.view s' ≡ (A.handled A.handler e g ∷ A.handler ∷ (A.view s).0, g))
  call_leaves {vs = vs} {xs = xs} kinds name s e g few c args ran =
      let f = A.global name (A.view s).1 in
      let (s1, found, view2) = ready A class_name void_id name s few c args in
      let s2 = call_r A class_name void_id vs s1 in
      let ran2 : A.run f xs (A.view s2).1 ≡ failed e g = rw (ap (λ p. p.1) view2) ran in
      let same = length-Plain A class_name void_id args in
      let top = ap (λ p. p.0) view2 in
      let place : 2 + length vs ≡ suc (length xs + 1) = omega (arith, same) in
      let below : at (2 + length vs) (A.view s2).0 ≡ some A.handler =
        ap (at (2 + length vs)) top
        ∙ rw place (get_elem?-pushed xs (f ∷ A.handler ∷ (A.view s).0) 1) in
      let (lost, view3) =
        A.pcall-failed xs (A.handler ∷ (A.view s).0) (length kinds) (2 + length vs) s2 f A.handler e
          g top ran2 below in
      let out = A.pcall (length xs) (length kinds) (2 + length vs) s2 in
      (
        out.1,
        call-ready A class_name void_id vs name kinds s s1 found
            ∙ ap
                (λ i.
                  finish A class_name void_id kinds (A.pcall i (length kinds) (2 + length vs) s2))
                same
            ∙ finish-failed kinds out.0 out.1 (A.handled A.handler e g) lost (rw view3 refl),
        view3,
      )
