-- ===== src/Lua/Script/Second.antt =====
-- `Script::call` of src/LuaUtils.hpp where more than one result is asked for.
use hawck.Prelude.{
  ℕ, zero, suc, ◌+◌, ◌≡◌, ◌≤◌, refl, sym, ap, ◌∙◌, Bool, true, List, [], ◌∷◌, Option, some, Str,
  codes, length, arith,
}
use hawck.Lua.{
  LuaApi, results, at, pushed, adjusted, Outcome, returned, thrown, terminated, Kind, int_kind,
  bool_kind, pointer_kind, Value, get,
}
use hawck.Lua.Arguments.{Holds, get-Holds, at-pushed, get_elem?-pushed}
use hawck.Lua.Script.{ret_r, call_r, finish, call}
use hawck.Lua.Script.Callable.{Callable}
use hawck.Lua.Script.Calls.{Plain, length-Plain, ready, call-ready}

module _ (A : LuaApi) (class_name : ℕ → Option Str) (void_id : ℕ) where
  open A use {S, V, G}

  length-adjusted : (n : ℕ) (rs : List V) → length (adjusted A.nil n rs) ≡ n
  length-adjusted zero rs = refl
  length-adjusted (suc n) [] = ap suc (length-adjusted n [])
  length-adjusted (suc n) (r ∷ rs) = ap suc (length-adjusted n rs)

  -- What `LuaValue<T>::get` says of a function.
  pub data Refuses : Kind → Str → Type 0 where
    no_number : Refuses int_kind (codes "Expected number")
    no_boolean : Refuses bool_kind (codes "Expected boolean")
    no_userdata : {tid : ℕ} → Refuses (pointer_kind tid) (codes "Expected userdata")

  get-handler :
      {k : Kind} {m : Str} (i : ℕ) (s : S)
      → at i (A.view s).0 ≡ some A.handler
      → Refuses k m
      → get A k i s ≡ (thrown m, s)
  unfolding get
  get-handler i s found no_number =
      rw (A.value_at-view i s A.handler found, A.is_number-function A.handler A.type_of-handler)
        refl
  get-handler i s found no_boolean =
      rw (A.value_at-view i s A.handler found, A.type_of-handler) refl
  get-handler i s found no_userdata =
      rw (A.value_at-view i s A.handler found, A.type_of-handler) refl

  ret_r-first :
      (j : Kind) (ks : List Kind) (m : Str) (i : ℕ) (s s' : S)
      → get A j i s ≡ (thrown m, s')
      → ret_r A i (j ∷ ks) s ≡ (terminated, s')
  unfolding ret_r
  ret_r-first j ks m i s s' got = rw (ap (λ r. r.0) got, ap (λ r. r.1) got, ret_r) refl

  ret_r-rest :
      (k : Kind) (v : Value) (ks : List Kind) (i : ℕ) (s s1 s' : S)
      → get A k i s ≡ (returned v, s1)
      → ret_r A (i + 1) ks s1 ≡ (terminated, s')
      → ret_r A i (k ∷ ks) s ≡ (terminated, s')
  unfolding ret_r
  ret_r-rest k v ks i s s1 s' got rest =
      let left : (S → Outcome (List Value) × S) = λ x. (terminated, (ret_r A (i + 1) ks x).1) in
      let kept : (Outcome (List Value) × S → Outcome (List Value) × S) = λ r. (terminated, r.1) in
      rw (ap (λ r. r.0) got, ap (λ r. r.1) got, ret_r)
        (rw (ap (λ r. r.0) rest) (ap left (ap (λ r. r.1) got) ∙ ap kept rest))

  finish-terminated :
      (kinds : List Kind) (done : Bool) (s s' : S)
      → done ≡ true
      → ret_r A (length kinds) kinds s ≡ (terminated, s')
      → finish A class_name void_id kinds (done, s) ≡ (terminated, s')
  unfolding finish
  finish-terminated kinds done s s' h got = rw (h, ap (λ r. r.0) got, ap (λ r. r.1) got) refl

  -- A call that asks for two results or more reads the second below the first, where the error handler
  -- stands: whatever the function gives, if the first result has its type and the second is to be a
  -- number, a boolean or a pointer, the `LuaError` that says it is none ends the program.
  pub call_second :
      {n : ℕ} {vs : List Value} {xs rs ys : List V} {k j : Kind} {v : Value} {y : V} {m : Str}
      (ks : List Kind) (name : Str) (s : S) (g : G)
      → n ≤ 32
      → Callable A (A.view s).1 n (A.global name (A.view s).1)
      → Plain A class_name void_id vs xs
      → A.run (A.global name (A.view s).1) xs (A.view s).1 ≡ results rs g
      → adjusted A.nil (length (k ∷ j ∷ ks)) rs ≡ y ∷ ys
      → Holds A k v y
      → Refuses j m
      → (s' : S) × (call A class_name void_id name vs (k ∷ j ∷ ks) s ≡ (terminated, s'))
  call_second {vs = vs} {xs = xs} {rs = rs} {ys = ys} {k = k} {j = j} {v = v} {y = y} {m = m} ks
        name s g few c args ran gave held refuses =
      let f = A.global name (A.view s).1 in
      let kinds = k ∷ j ∷ ks in
      let (s1, found, view2) = ready A class_name void_id name s few c args in
      let s2 = call_r A class_name void_id vs s1 in
      let ran2 : A.run f xs (A.view s2).1 ≡ results rs g = rw (ap (λ p. p.1) view2) ran in
      let same = length-Plain A class_name void_id args in
      let (done, view3) =
        A.pcall-results xs (A.handler ∷ (A.view s).0) rs (length kinds) (2 + length vs) s2 f g
          (ap (λ p. p.0) view2) ran2 in
      let out = A.pcall (length xs) (length kinds) (2 + length vs) s2 in
      let view4 : A.view out.1 ≡ (pushed (y ∷ ys) (A.handler ∷ (A.view s).0), g) =
        view3 ∙ ap (λ l. (pushed l (A.handler ∷ (A.view s).0), g)) gave in
      let size : length kinds ≡ length (y ∷ ys) =
        sym (length-adjusted (length kinds) rs) ∙ ap length gave in
      let top : at (length kinds) (A.view out.1).0 ≡ some y =
        ap (λ i. at i (A.view out.1).0) size
        ∙ rw view4 (at-pushed y ys (A.handler ∷ (A.view s).0)) in
      let place : length kinds + 1 ≡ suc (length (y ∷ ys) + 0) = omega (arith, size) in
      let next : at (length kinds + 1) (A.view out.1).0 ≡ some A.handler = rw view4 (
        ap (λ i. at i (pushed (y ∷ ys) (A.handler ∷ (A.view s).0))) place
        ∙ get_elem?-pushed (y ∷ ys) (A.handler ∷ (A.view s).0) 0) in
      (
        out.1,
        call-ready A class_name void_id vs name kinds s s1 found
            ∙ ap
                (λ i.
                  finish A class_name void_id kinds (A.pcall i (length kinds) (2 + length vs) s2))
                same
            ∙ finish-terminated kinds out.0 out.1 out.1 done (
                ret_r-rest k v (j ∷ ks) (length kinds) out.1 out.1 out.1
                  (get-Holds A (length kinds) out.1 top held)
                  (ret_r-first j ks m (length kinds + 1) out.1 out.1
                    (get-handler (length kinds + 1) out.1 next refuses))),
      )
