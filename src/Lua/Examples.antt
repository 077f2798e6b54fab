-- ===== src/Lua/Examples.antt =====
-- Tests of the bindings to Lua.
use hawck.Prelude.{ℕ, ◌≡◌, refl, true, false, List, [], ◌∷◌, Option, none, some, Str, codes, arith}
use hawck.Prelude.Int.{pos}
use hawck.Lua.{
  returned, thrown, raised, terminated, int_kind, bool_kind, pointer_kind, Value, int_value,
  bool_value, get,
}
use hawck.Lua.Sample.{State, num, pointed, nothing, toy}
use hawck.Paths.{join}
use hawck.Lua.Errors.{fmt_error}
use hawck.Lua.Objects.{push_object, push_shared, get-push_shared}
use hawck.Lua.Method.{check_lua_type, push_result, wrap}
use hawck.Lua.Arguments.{int_arg, pointer_arg, no_args, arg, wrap-Args, wrap_refuses}
use hawck.Lua.Script.{call, is_callable}
use hawck.Lua.Script.Callable.{by_function, not_table, is_callable-Bare}
use hawck.Lua.Script.Calls.{no_values, int_first, bool_first, call_returns}
use hawck.Lua.Script.Second.{no_boolean, call_second}
use hawck.Lua.Gc.{
  made, start, next, pushes, destructs, IsCounted, lua_push, destruct, Reach-IsCounted,
}
use hawck.Lua.Timeout.{hook_of, run_hooks, begin, error_hook, run_hooks-begin}

abbrev state : State
state = ([], none)

abbrev no_class : ℕ → Option Str
no_class tid = none

-- A method that adds the number to the state and says whether it is set.
abbrev method : List Value → ℕ → Option Value × ℕ
method (p ∷ v ∷ vs) w = (some v, w)
method vs w = (none, w)

abbrev given : State
given = (num (pos 5) ∷ pointed (9, 3) ∷ [], none)

wrap-Args_example :
    wrap toy no_class 0 (codes "f") (pointer_kind 3 ∷ int_kind ∷ []) method (given, 1) ≡ (
      returned (push_result toy no_class 0 (some (int_value (pos 5))) given).0,
      ((push_result toy no_class 0 (some (int_value (pos 5))) given).1, 1),
    )
wrap-Args_example =
    wrap-Args toy no_class 0 (codes "f") method given 1
      (arg (pointer_arg {p = 9} (pointed (9, 3)) refl refl refl) (arg (int_arg (pos 5)) no_args))
      refl

wrap_refuses_example :
    wrap toy no_class 0 (codes "f") (bool_kind ∷ int_kind ∷ []) method (given, 1)
    ≡ (raised (codes "f : expected (boolean, number) got (userdata, number)"), (given, 1))
unfolding check_lua_type join
wrap_refuses_example =
    wrap_refuses toy no_class 0 (bool_kind ∷ int_kind ∷ []) (pointed (9, 3) ∷ num (pos 5) ∷ [])
      (codes "f") method given 1 refl refl refl

call_returns_example :
    (s' : State) × (call toy no_class 0 (codes "f") (int_value (pos 2) ∷ []) (int_kind ∷ []) state
      ≡ (returned (int_value (pos 2) ∷ []), s'))
    × (s' ≡ state)
call_returns_example =
    call_returns toy no_class 0 {n = 0} {kinds = int_kind ∷ []} (codes "f") state none (omega arith)
      (by_function refl) (int_first (pos 2) no_values) refl (omega arith)
      (arg (int_arg (pos 2)) no_args)

call_second_example :
    (s' : State) × (call toy no_class 0
        (codes "f")
        (int_value (pos 2) ∷ bool_value true ∷ [])
        (int_kind ∷ bool_kind ∷ [])
        state
      ≡ (terminated, s'))
call_second_example =
    call_second toy no_class 0 {n = 0} [] (codes "f") state none (omega arith) (by_function refl)
      (int_first (pos 2) (bool_first true no_values)) refl refl (int_arg (pos 2)) no_boolean

is_callable-Bare_example :
    (s' : State) × (is_callable toy 1 (nothing ∷ num (pos 1) ∷ [], none) ≡ (returned false, s'))
    × (s' ≡ (num (pos 1) ∷ [], none))
is_callable-Bare_example =
    is_callable-Bare toy (nothing ∷ num (pos 1) ∷ [], none) (num (pos 1) ∷ []) refl refl refl
      (not_table refl)

get-push_shared_example :
    (get toy (pointer_kind 4) 1 (push_object toy 9 3 state)
      ≡ (thrown (codes "Attempted to cast"), push_object toy 9 3 state))
    × (get toy (pointer_kind 4) 1 (push_shared toy 9 3 state)
        ≡ (thrown (codes "Attempted to cast"), push_shared toy 9 3 state))
    × ((push_object toy 9 3 state).0 ≡ pointed (9, 3) ∷ [])
    × ((push_shared toy 9 3 state).0 ≡ pointed (9, 3) ∷ [])
get-push_shared_example = get-push_shared toy 9 3 4 state refl

-- Pushed to Lua, and then let go by C++.
Reach-IsCounted_example :
    IsCounted (record { shared = destruct (lua_push made.shared); handles = 0; values = 1 })
Reach-IsCounted_example =
    Reach-IsCounted (next (next start (pushes made (omega arith))) (destructs _ (omega arith)))

run_hooks-begin_example :
    hook_of 1 (
      run_hooks 1
        (1900 ∷ 2500 ∷ [])
        (begin 1 100 2000 (record { script_end_times = []; hook = [] })))
    ≡ error_hook
run_hooks-begin_example =
    run_hooks-begin 1 100 2000 (1900 ∷ 2500 ∷ []) (record { script_end_times = []; hook = [] })

short : fmt_error (codes "/a/b.lua:3: no") ≡ codes "b.lua:3: no"
unfolding fmt_error
short = refl
