-- ===== src/Lua/Arguments.antt =====
-- The arguments of a method of C++ that Lua calls: `LuaMethod::wrap` of src/LuaUtils.hpp.
use hawck.Prelude.{
  ℕ, suc, ◌+◌, ◌-◌, ◌≡◌, refl, ap, ◌∙◌, Bool, true, false, ◌&&◌, List, [], ◌∷◌, ◌++◌, Option, some,
  Str, codes, length, get_elem?, map, ◌==◌, arith,
}
use hawck.Prelude.Int.{ℤ, to_int}
use hawck.Paths.{join}
use hawck.Lua.{
  userdata_type, type_name, LuaApi, at, pushed, returned, raised, Kind, int_kind, bool_kind,
  string_kind, pointer_kind, Value, int_value, bool_value, string_value, pointer_value, get, cast,
}
use hawck.Lua.Method.{
  check_lua_type, type_string, format_args, format_args_lua, check_args, gather, push_result, wrap,
}

pub get_elem?-pushed {ℓ} :
    {V : Type ℓ} (xs vs : List V) (j : ℕ)
    → get_elem? (pushed xs vs) (length xs + j) ≡ get_elem? vs j
get_elem?-pushed [] vs j = ap (get_elem? vs) (omega arith)
get_elem?-pushed (x ∷ xs) vs j =
    let e : length (x ∷ xs) + j ≡ length xs + suc j = omega arith in
    rw e (get_elem?-pushed xs (x ∷ vs) (suc j))

pub at-pushed {ℓ} :
    {V : Type ℓ} (x : V) (xs vs : List V) → at (length (x ∷ xs)) (pushed (x ∷ xs) vs) ≡ some x
at-pushed x xs vs =
    ap (get_elem? (pushed xs (x ∷ vs))) (omega arith) ∙ get_elem?-pushed xs (x ∷ vs) 0

pub length-pushed {ℓ} :
    {V : Type ℓ} (xs vs : List V) → length (pushed xs vs) ≡ length xs + length vs
length-pushed [] vs = omega arith
length-pushed (x ∷ xs) vs = omega (arith, length-pushed xs (x ∷ vs))

module _ (A : LuaApi) where
  open A use {S, V}

  -- A value of Lua stands for one of C++, of a type: an integer for the `int` to which it is narrowed.
  pub data Holds : Kind → Value → V → Type 0 where
    int_arg : (n : ℤ) → Holds int_kind (int_value (to_int n)) (A.number n)
    bool_arg : (b : Bool) → Holds bool_kind (bool_value b) (A.boolean b)
    text_arg : (t : Str) → Holds string_kind (string_value t) (A.text t)
    pointer_arg :
        {tid p : ℕ} (x : V)
        → A.type_of x ≡ userdata_type
        → A.content x ≡ (p, tid)
        → (p == 0) ≡ false
        → Holds (pointer_kind tid) (pointer_value tid p) x

  pub data Args : List Kind → List Value → List V → Type 0 where
    no_args : Args [] [] []
    arg :
        {k : Kind} {v : Value} {x : V} {ks : List Kind} {vs : List Value} {xs : List V}
        → Holds k v x
        → Args ks vs xs
        → Args (k ∷ ks) (v ∷ vs) (x ∷ xs)

  -- As many values as types, whose types in Lua are those that are asked for.
  abbrev pub all_match : List Kind → List V → Bool
  all_match [] [] = true
  all_match (k ∷ ks) (x ∷ xs) = check_lua_type k (A.type_of x) && all_match ks xs
  all_match ks xs = false

  at_top :
      (x : V) (xs vs : List V) (s : S)
      → (A.view s).0 ≡ pushed (x ∷ xs) vs
      → at (length (x ∷ xs)) (A.view s).0 ≡ some x
  at_top x xs vs s h = rw h (at-pushed x xs vs)

  pub get-Holds :
      {k : Kind} {v : Value} {x : V} (i : ℕ) (s : S)
      → at i (A.view s).0 ≡ some x
      → Holds k v x
      → get A k i s ≡ (returned v, s)
  unfolding get cast
  get-Holds i s found (int_arg n) =
      rw (A.value_at-view i s (A.number n) found, A.is_number-number n, A.to_integer-number n) refl
  get-Holds i s found (bool_arg b) =
      rw (A.value_at-view i s (A.boolean b) found, A.type_of-boolean b, A.to_boolean-boolean b) refl
  get-Holds i s found (text_arg t) = rw (A.to_text-text i s t found) refl
  get-Holds i s found (pointer_arg {tid} {p} x kind held full) =
      let self : (tid == tid) ≡ true = ground arith in
      rw (A.value_at-view i s x found, kind, held, full, self) refl

  pub check-Holds :
      {k : Kind} {v : Value} {x : V} → Holds k v x → check_lua_type k (A.type_of x) ≡ true
  unfolding check_lua_type
  check-Holds (int_arg n) = rw (A.type_of-number n) refl
  check-Holds (bool_arg b) = rw (A.type_of-boolean b) refl
  check-Holds (text_arg t) = rw (A.type_of-text t) refl
  check-Holds (pointer_arg x kind held full) = rw kind refl

  pub all_match-Args :
      {ks : List Kind} {vs : List Value} {xs : List V} → Args ks vs xs → all_match ks xs ≡ true
  all_match-Args no_args = refl
  all_match-Args (arg h rest) = rw (check-Holds h, all_match-Args rest) refl

  pub length-Args :
      {ks : List Kind} {vs : List Value} {xs : List V} → Args ks vs xs → length ks ≡ length xs
  length-Args no_args = refl
  length-Args (arg h rest) = ap suc (length-Args rest)

module _ (A : LuaApi) (class_name : ℕ → Option Str) (void_id : ℕ) where
  open A use {S, V}

  check_args-all_match :
      (ks : List Kind) (xs vs : List V) (s : S)
      → length ks ≡ length xs
      → (A.view s).0 ≡ pushed xs vs
      → check_args A class_name void_id (length xs) ks s ≡ all_match A ks xs
  unfolding check_args
  check_args-all_match [] [] vs s same h = refl
  check_args-all_match [] (x ∷ xs) vs s same h = absurd (omega arith)
  check_args-all_match (k ∷ ks) [] vs s same h = absurd (omega arith)
  check_args-all_match (k ∷ ks) (x ∷ xs) vs s same h =
      rw (A.value_at-view (length (x ∷ xs)) s x (at_top A x xs vs s h)) (
        ap (λ b. check_lua_type k (A.type_of x) && b)
          (ap (λ i. check_args A class_name void_id i ks s) (omega arith)
            ∙ check_args-all_match ks xs (x ∷ vs) s (omega arith) h))

  gather-Args :
      {ks : List Kind} {vs : List Value} {xs : List V} (ys : List V) (s : S)
      → Args A ks vs xs
      → (A.view s).0 ≡ pushed xs ys
      → gather A class_name void_id (length xs) ks s ≡ (returned vs, s)
  unfolding gather
  gather-Args ys s no_args h = refl
  gather-Args ys s (arg {k} {v} {x} {ks} {vs} {xs} top rest) h =
      let one_less : length (x ∷ xs) - 1 ≡ length xs = omega arith in
      let below =
        ap (λ i. gather A class_name void_id i ks s) one_less ∙ gather-Args (x ∷ ys) s rest h in
      let first = get-Holds A (length (x ∷ xs)) s (at_top A x xs ys s h) top in
      rw (ap (λ r. r.0) below, ap (λ r. r.1) below, first) refl

  -- Called on a stack of as many arguments as the method has, of the types of Lua that it asks for, and
  -- each pointer not null and of the class that it asks for, `wrap` calls the method once, on those
  -- arguments in their order, the integers narrowed to `int`, and pushes what `luaPush` pushes of the result.
  pub wrap-Args :
      {W : Type 0} {ks : List Kind} {vs : List Value} {xs : List V} (fn_name : Str)
      (method : List Value → W → Option Value × W) (s : S) (w : W)
      → Args A ks vs xs
      → (A.view s).0 ≡ pushed xs []
      → wrap A class_name void_id fn_name ks method (s, w) ≡ (
        returned (push_result A class_name void_id (method vs w).0 s).0,
        ((push_result A class_name void_id (method vs w).0 s).1, (method vs w).1),
      )
  unfolding wrap
  wrap-Args {W} {ks} {vs} {xs} fn_name method s w args h =
      let same = length-Args A args in
      let checked = check_args-all_match ks xs [] s same h ∙ all_match-Args A args in
      let gathered = ap (λ i. gather A class_name void_id i ks s) same ∙ gather-Args [] s args h in
      rw
        (
          ap (λ i. check_args A class_name void_id i ks s) same ∙ checked,
          ap (λ r. r.0) gathered,
          ap (λ r. r.1) gathered,
        )
        refl

  abbrev pub join_names : List V → Str
  join_names [] = []
  join_names (x ∷ xs) =
      join (codes ", ") (type_name (A.type_of x)) (map (λ y. type_name (A.type_of y)) xs)

  abbrev pub join_kinds : List Kind → Str
  join_kinds [] = []
  join_kinds (k ∷ ks) =
      join (codes ", ") (type_string A class_name void_id k)
        (map (type_string A class_name void_id) ks)

  format_args-join : (ks : List Kind) → format_args A class_name void_id ks ≡ join_kinds ks
  unfolding format_args join
  format_args-join [] = refl
  format_args-join (k ∷ []) = refl
  format_args-join (k ∷ j ∷ ks) =
      ap (λ t. type_string A class_name void_id k ++ codes ", " ++ t) (format_args-join (j ∷ ks))

  format_args_lua-join :
      (xs ys : List V) (s : S)
      → (A.view s).0 ≡ pushed xs ys
      → format_args_lua A class_name void_id (length xs) s ≡ join_names xs
  unfolding format_args_lua join
  format_args_lua-join [] ys s h = refl
  format_args_lua-join (x ∷ []) ys s h = rw (A.value_at-view 1 s x (at_top A x [] ys s h)) refl
  format_args_lua-join (x ∷ y ∷ xs) ys s h =
      rw (A.value_at-view (length (x ∷ y ∷ xs)) s x (at_top A x (y ∷ xs) ys s h)) (
        ap (λ t. type_name (A.type_of x) ++ codes ", " ++ t)
          (format_args_lua-join (y ∷ xs) (x ∷ ys) s h))

  -- Called on as many arguments as the method has, if one has another type than is asked for, `wrap`
  -- raises an error that names the types that are expected and those that are given, in order, and
  -- neither the method runs nor does the stack change.
  pub wrap_refuses :
      {W : Type 0} (ks : List Kind) (xs : List V) (fn_name : Str)
      (method : List Value → W → Option Value × W) (s : S) (w : W)
      → length ks ≡ length xs
      → (A.view s).0 ≡ pushed xs []
      → all_match A ks xs ≡ false
      → wrap A class_name void_id fn_name ks method (s, w) ≡ (
        raised (
            A.where_at s
            ++ (fn_name
                ++ codes " : expected ("
                ++ join_kinds ks
                ++ codes ")"
                ++ (codes " got (" ++ join_names xs ++ codes ")"))),
        (s, w),
      )
  unfolding wrap
  wrap_refuses ks xs fn_name method s w same h wrong =
      let refused = check_args-all_match ks xs [] s same h ∙ wrong in
      let depth : length (A.view s).0 ≡ length xs =
        ap length h ∙ length-pushed xs [] ∙ omega arith in
      rw (same, refused, depth, format_args-join ks, format_args_lua-join xs [] s h) refl
