-- ===== src/Lua/Script/Calls.antt =====
-- `Script::call` of src/LuaUtils.hpp: what it returns.
use hawck.Prelude.{
  ℕ, suc, ◌+◌, ◌≡◌, ◌≤◌, refl, sym, ap, ◌∙◌, Bool, true, List, [], ◌∷◌, Option, Str, length, drop,
  arith,
}
use mathlib.Core.Path.{subst}
use hawck.Prelude.Int.{ℤ}
use hawck.Lua.{
  LuaApi, results, pushed, adjusted, returned, Kind, Value, int_value, bool_value, string_value,
}
use hawck.Lua.Arguments.{Args, no_args, arg, get-Holds}
use hawck.Lua.Script.{is_callable, ret_r, push_arg, call_r, finish, call}
use hawck.Lua.Script.Callable.{Callable, is_callable-Callable}

module _ (A : LuaApi) (class_name : ℕ → Option Str) (void_id : ℕ) where
  open A use {S, V, G}

  -- Arguments that are no pointers, and the values of Lua that they become.
  pub data Plain : List Value → List V → Type 0 where
    no_values : Plain [] []
    int_first :
        {vs : List Value} {xs : List V} (n : ℤ)
        → Plain vs xs
        → Plain (int_value n ∷ vs) (A.number n ∷ xs)
    bool_first :
        {vs : List Value} {xs : List V} (b : Bool)
        → Plain vs xs
        → Plain (bool_value b ∷ vs) (A.boolean b ∷ xs)
    text_first :
        {vs : List Value} {xs : List V} (t : Str)
        → Plain vs xs
        → Plain (string_value t ∷ vs) (A.text t ∷ xs)

  call_r-Plain :
      {vs : List Value} {xs : List V} (s : S)
      → Plain vs xs
      → A.view (call_r A class_name void_id vs s) ≡ (pushed xs (A.view s).0, (A.view s).1)
  unfolding call_r push_arg
  call_r-Plain s no_values = refl
  call_r-Plain s (int_first n rest) =
      call_r-Plain (A.push (A.number n) s) rest ∙ rw (A.view-push (A.number n) s) refl
  call_r-Plain s (bool_first b rest) =
      call_r-Plain (A.push (A.boolean b) s) rest ∙ rw (A.view-push (A.boolean b) s) refl
  call_r-Plain s (text_first t rest) =
      call_r-Plain (A.push (A.text t) s) rest ∙ rw (A.view-push (A.text t) s) refl

  pub length-Plain : {vs : List Value} {xs : List V} → Plain vs xs → length vs ≡ length xs
  length-Plain no_values = refl
  length-Plain (int_first n rest) = ap suc (length-Plain rest)
  length-Plain (bool_first b rest) = ap suc (length-Plain rest)
  length-Plain (text_first t rest) = ap suc (length-Plain rest)

  -- A callable global, and the stack under its arguments.
  pub ready :
      {n : ℕ} {vs : List Value} {xs : List V} (name : Str) (s : S)
      → n ≤ 32
      → Callable A (A.view s).1 n (A.global name (A.view s).1)
      → Plain vs xs
      → (s' : S) × (is_callable A 1 (A.get_global name (A.push A.handler s)) ≡ (returned true, s'))
        × (A.view (call_r A class_name void_id vs s')
            ≡ (pushed xs (A.global name (A.view s).1 ∷ A.handler ∷ (A.view s).0), (A.view s).1))
  ready {n} name s few c args =
      let s1 = A.get_global name (A.push A.handler s) in
      let f = A.global name (A.view s).1 in
      let view1 : A.view s1 ≡ (f ∷ A.handler ∷ (A.view s).0, (A.view s).1) =
        A.view-get_global name (A.push A.handler s) ∙ rw (A.view-push A.handler s) refl in
      let c1 : Callable A (A.view s1).1 n f =
        subst (λ g. Callable A g n f) (sym (ap (λ p. p.1) view1)) c in
      let (s', found, same) = is_callable-Callable A 1 s1 few (rw view1 refl) c1 in
      (s', found, call_r-Plain s' args ∙ rw (same, view1) refl)

  pub call-ready :
      (vs : List Value) (name : Str) (kinds : List Kind) (s s' : S)
      → is_callable A 1 (A.get_global name (A.push A.handler s)) ≡ (returned true, s')
      → call A class_name void_id name vs kinds s
        ≡ finish A class_name void_id kinds
            (A.pcall (length vs) (length kinds) (2 + length vs) (call_r A class_name void_id vs s'))
  unfolding call
  call-ready vs name kinds s s' found = rw (ap (λ r. r.0) found, ap (λ r. r.1) found, call) refl

  ret_r-one :
      {kinds : List Kind} {vals : List Value} {ys : List V} (vs : List V) (s : S)
      → length kinds ≤ 1
      → Args A kinds vals ys
      → (A.view s).0 ≡ pushed ys (A.handler ∷ vs)
      → (ret_r A (length kinds) kinds s ≡ (returned vals, s))
        × (drop (1 + length kinds) (A.view s).0 ≡ vs)
  unfolding ret_r
  ret_r-one vs s few no_args h = (refl, rw h refl)
  ret_r-one vs s few (arg {x = x} top no_args) h =
      let got = get-Holds A 1 s (rw h refl) top in
      (rw (ap (λ r. r.0) got, ap (λ r. r.1) got, ret_r) refl, rw h refl)
  ret_r-one vs s few (arg top (arg next rest)) h = absurd (omega arith)

  finish-done :
      (kinds : List Kind) (vals : List Value) (done : Bool) (s : S)
      → done ≡ true
      → ret_r A (length kinds) kinds s ≡ (returned vals, s)
      → finish A class_name void_id kinds (done, s) ≡ (returned vals, A.pop (1 + length kinds) s)
  unfolding finish
  finish-done kinds vals done s h got = rw (h, ap (λ r. r.0) got, ap (λ r. r.1) got) refl

  -- A call of a global that is callable through at most 32 metatables, on arguments that are no
  -- pointers, asking for one result or none, returns the result that the function gives, an integer
  -- narrowed to `int`, if it has the type that is asked for, and leaves the stack as it was.
  pub call_returns :
      {n : ℕ} {vs vals : List Value} {xs rs : List V} {kinds : List Kind} (name : Str) (s : S)
      (g : G)
      → n ≤ 32
      → Callable A (A.view s).1 n (A.global name (A.view s).1)
      → Plain vs xs
      → A.run (A.global name (A.view s).1) xs (A.view s).1 ≡ results rs g
      → length kinds ≤ 1
      → Args A kinds vals (adjusted A.nil (length kinds) rs)
      → (s' : S) × (call A class_name void_id name vs kinds s ≡ (returned vals, s'))
        × (A.view s' ≡ ((A.view s).0, g))
  call_returns {vs = vs} {vals = vals} {xs = xs} {rs = rs} {kinds = kinds} name s g few c args ran
        one held =
      let f = A.global name (A.view s).1 in
      let (s1, found, view2) = ready name s few c args in
      let s2 = call_r A class_name void_id vs s1 in
      let ran2 : A.run f xs (A.view s2).1 ≡ results rs g = rw (ap (λ p. p.1) view2) ran in
      let same = length-Plain args in
      let (done, view3) =
        A.pcall-results xs (A.handler ∷ (A.view s).0) rs (length kinds) (2 + length vs) s2 f g
          (ap (λ p. p.0) view2) ran2 in
      let out = A.pcall (length xs) (length kinds) (2 + length vs) s2 in
      let (got, rest) = ret_r-one (A.view s).0 out.1 one held (ap (λ p. p.0) view3) in
      (
        A.pop (1 + length kinds) out.1,
        call-ready vs name kinds s s1 found
            ∙ ap
                (λ i.
                  finish A class_name void_id kinds (A.pcall i (length kinds) (2 + length vs) s2))
                same
            ∙ finish-done kinds vals out.0 out.1 done got,
        A.view-pop (1 + length kinds) out.1 ∙ rw (rest, ap (λ p. p.1) view3) refl,
      )
