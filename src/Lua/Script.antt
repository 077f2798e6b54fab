-- ===== src/Lua/Script.antt =====
-- `isCallable` and the class `Script` of src/LuaUtils.hpp and src/LuaUtils.cpp: Lua code that C++ runs.
pub mod Callable
pub mod Calls
pub mod Chunks
pub mod Failing
pub mod Second
use hawck.Prelude.{
  ℕ, zero, suc, ◌+◌, Bool, true, false, List, [], ◌∷◌, ◌++◌, Option, none, some, Str, codes, length,
  if◌then◌else◌,
}
use hawck.Lua.{
  LuaType, function_type, table_type, LuaApi, Source, file, chunk, Outcome, returned, thrown,
  raised, logic_error, terminated, Kind, Value, int_value, bool_value, string_value, pointer_value,
  get,
}
use hawck.Lua.Method.{push_pointer}

abbrev pub is_function : LuaType → Bool
is_function function_type = true
is_function t = false

abbrev pub is_table : LuaType → Bool
is_table table_type = true
is_table t = false

-- `soft_max_depth`, and the depth 0.
abbrev pub layers : ℕ
layers = 33

module _ (A : LuaApi) where
  open A use {S, V}

  -- `isCallableHelper`, on the layers that are left. The stack of Lua is taken to have room.
  unfoldable pub callable_from : ℕ → ℕ → S → Outcome Bool × S
  callable_from zero i s =
      (raised (A.where_at s ++ codes "Unable to determine if function is callable"), s)
  callable_from (suc n) i s =
      let s1 = A.get_metatable i s in
      let deeper = callable_from n 1 (A.get_field 1 (codes "__call") s1) in
      let through : Outcome Bool × S = elim deeper.0 [
        | returned b ↦ (returned b, A.pop 2 deeper.1)
        | thrown e ↦ deeper
        | raised e ↦ deeper
        | logic_error ↦ deeper
        | terminated ↦ deeper
      ] in
      if is_function (A.type_of (A.value_at i s))
      then (returned true, s)
      else if is_table (A.type_of (A.value_at 1 s1))
      then through
      else (returned false, A.pop 1 s1)

  unfoldable pub is_callable : ℕ → S → Outcome Bool × S
  is_callable i s = callable_from layers i s

  -- `ret_r`, from the index of the first result: each next index is one less. It is `noexcept`, so an
  -- exception of `get` ends the program. The order in which the results are read is the compiler's
  -- choice, here the first comes first.
  unfoldable pub ret_r : ℕ → List Kind → S → Outcome (List Value) × S
  ret_r i [] s = (returned [], s)
  ret_r i (k ∷ ks) s =
      let first = get A k i s in
      let rest = ret_r (i + 1) ks first.1 in
      elim first.0 [
        | thrown e ↦ (terminated, first.1)
        | raised e ↦ (raised e, first.1)
        | logic_error ↦ (terminated, first.1)
        | terminated ↦ (terminated, first.1)
        | returned v ↦ elim rest.0 [
          | thrown e ↦ (terminated, rest.1)
          | raised e ↦ (raised e, rest.1)
          | logic_error ↦ (terminated, rest.1)
          | terminated ↦ (terminated, rest.1)
          | returned vs ↦ (returned (v ∷ vs), rest.1)
        ]
      ]

  -- `std::string err(lua_tostring(L, -1))` and the exception that is made of it.
  abbrev pub throw_top : (Str → Str) → S → Outcome (Unit {0}) × S
  throw_top reformat s =
      let (text, s') = A.to_text 1 s in
      (elim text [ none ↦ logic_error | some err ↦ thrown (reformat err) ], s')

  -- What `from` and `exec` have in common.
  unfoldable pub load_and_run : Source → (Str → Str) → S → Outcome (Unit {0}) × S
  load_and_run c reformat s =
      let (compiled, s1) = A.load c s in
      let (done, s2) = A.pcall 0 0 0 s1 in
      if compiled
      then if done then (returned tt, s2) else throw_top reformat s2
      else throw_top reformat s1

  unfoldable pub from : Str → S → Outcome (Unit {0}) × S
  from path s = load_and_run (file path) (λ err. err) s

  -- `parts` is the regular expression of `exec`: the line and the message.
  abbrev pub reformat : (Str → Option (Str × Str)) → Str → Str → Str
  reformat parts src err = elim (parts err) [
    | none ↦ err
    | some (line, message) ↦ src ++ codes ":" ++ line ++ codes ": " ++ message
  ]

  unfoldable pub exec : (Str → Option (Str × Str)) → Str → Str → S → Outcome (Unit {0}) × S
  exec parts src str s = load_and_run (chunk str) (reformat parts src) s

module _ (A : LuaApi) (class_name : ℕ → Option Str) (void_id : ℕ) where
  open A use {S, V}

  -- `call_r`: `luaPush` of the arguments, which are variables of C++.
  unfoldable pub push_arg : Value → S → S
  push_arg (int_value n) s = A.push (A.number n) s
  push_arg (bool_value b) s = A.push (A.boolean b) s
  push_arg (string_value t) s = A.push (A.text t) s
  push_arg (pointer_value tid p) s = push_pointer A class_name void_id tid p s

  unfoldable pub call_r : List Value → S → S
  call_r [] s = s
  call_r (v ∷ vs) s = call_r vs (push_arg v s)

  -- The end of `call`, on what `lua_pcall` gave.
  unfoldable pub finish : List Kind → Bool × S → Outcome (List Value) × S
  finish kinds (done, s) =
      let tup = ret_r A (length kinds) kinds s in
      let got : Outcome (List Value) × S = elim tup.0 [
        | returned vs ↦ (returned vs, A.pop (1 + length kinds) tup.1)
        | thrown e ↦ (thrown e, tup.1)
        | raised e ↦ (raised e, tup.1)
        | logic_error ↦ (logic_error, tup.1)
        | terminated ↦ (terminated, tup.1)
      ] in
      if done then got else (
        thrown
            (elim (A.error_of (A.value_at 1 s)) [ none ↦ codes "Unknown error" | some err ↦ err ]),
        s,
      )

  -- `Script::call`, under its `TimeoutHook`.
  unfoldable pub call : Str → List Value → List Kind → S → Outcome (List Value) × S
  call name args kinds s =
      let callable = is_callable A 1 (A.get_global name (A.push A.handler s)) in
      let ran = A.pcall (length args) (length kinds) (2 + length args) (call_r args callable.1) in
      elim callable.0 [
        | thrown e ↦ (thrown e, callable.1)
        | raised e ↦ (raised e, callable.1)
        | logic_error ↦ (logic_error, callable.1)
        | terminated ↦ (terminated, callable.1)
        | returned b ↦ if b then finish kinds ran else (
          thrown (codes "Unable to retrieve " ++ name ++ codes " function from Lua state"),
          callable.1,
        )
      ]

  unfoldable pub set : Str → Value → S → S
  set name value s = A.set_global name (push_arg value s)
