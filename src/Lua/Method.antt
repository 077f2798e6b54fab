-- ===== src/Lua/Method.antt =====
-- `LuaMethod` of src/LuaUtils.hpp: a method of C++ as a function of Lua, which checks its arguments.
use hawck.Prelude.{
  ℕ, zero, suc, ◌-◌, Bool, true, false, ◌&&◌, List, [], ◌∷◌, ◌++◌, Option, none, some, Str, codes,
  length, if◌then◌else◌,
}
use hawck.Lua.Objects.{push_object}
use hawck.Lua.{
  LuaType, boolean_type, number_type, string_type, userdata_type, type_name, LuaApi, Outcome,
  returned, thrown, raised, logic_error, terminated, Kind, int_kind, bool_kind, string_kind,
  pointer_kind, Value, int_value, bool_value, string_value, pointer_value, get, provide,
}

-- The overloads of `checkLuaType`.
unfoldable pub check_lua_type : Kind → LuaType → Bool
check_lua_type int_kind number_type = true
check_lua_type string_kind string_type = true
check_lua_type bool_kind boolean_type = true
check_lua_type (pointer_kind tid) userdata_type = true
check_lua_type k t = false

-- `class_name` is the name of a type that is a `LuaIface`, by its id, and `void_id` the id of `void`.
module _ (A : LuaApi) (class_name : ℕ → Option Str) (void_id : ℕ) where
  open A use {S, V}

  -- `typeString`: the class of a pointer is named if it is a `LuaIface`.
  abbrev pub type_string : Kind → Str
  type_string int_kind = codes "number"
  type_string bool_kind = codes "boolean"
  type_string string_kind = codes "string"
  type_string (pointer_kind tid) = elim (class_name tid) [
    | none ↦ codes "userdata"
    | some name ↦ name
  ]

  unfoldable pub format_args : List Kind → Str
  format_args [] = []
  format_args (k ∷ []) = type_string k
  format_args (k ∷ j ∷ ks) = type_string k ++ codes ", " ++ format_args (j ∷ ks)

  -- `formatArgsLua` from an index down to the top of the stack.
  unfoldable pub format_args_lua : ℕ → S → Str
  format_args_lua zero s = []
  format_args_lua (suc zero) s = type_name (A.type_of (A.value_at 1 s))
  format_args_lua (suc (suc i)) s =
      type_name (A.type_of (A.value_at (suc (suc i)) s)) ++ codes ", " ++ format_args_lua (suc i) s

  unfoldable pub check_args : ℕ → List Kind → S → Bool
  check_args i [] s = true
  check_args i (k ∷ ks) s = check_lua_type k (A.type_of (A.value_at i s)) && check_args (i - 1) ks s

  abbrev pub before : Outcome Value × S → List Value → Outcome (List Value) × S
  before (returned v, s) vs = (returned (v ∷ vs), s)
  before (thrown e, s) vs = (thrown e, s)
  before (raised e, s) vs = (raised e, s)
  before (logic_error, s) vs = (logic_error, s)
  before (terminated, s) vs = (terminated, s)

  -- The arguments that the functions of `callFromLuaFunction` get: the last one is read first.
  unfoldable pub gather : ℕ → List Kind → S → Outcome (List Value) × S
  gather i [] s = (returned [], s)
  gather i (k ∷ ks) s =
      let (rest, s') = gather (i - 1) ks s in
      elim rest [
        | returned vs ↦ before (get A k i s') vs
        | thrown e ↦ (thrown e, s')
        | raised e ↦ (raised e, s')
        | logic_error ↦ (logic_error, s')
        | terminated ↦ (terminated, s')
      ]

  -- The overload for pointers: an object that is a `LuaIface` pushes itself, and any other pointer goes
  -- with the id of `void`.
  unfoldable pub push_pointer : ℕ → ℕ → S → S
  push_pointer tid p s = elim (class_name tid) [
    | none ↦ provide A p void_id s
    | some name ↦ push_object A p tid s
  ]

  -- `luaPush` of a method's result, and the number that it returns: a string that is returned matches
  -- no overload but the one for any type, and the overload for pointers returns 0.
  unfoldable pub push_result : Option Value → S → ℕ × S
  push_result none s = (0, s)
  push_result (some (int_value n)) s = (1, A.push (A.number n) s)
  push_result (some (bool_value b)) s = (1, A.push (A.boolean b) s)
  push_result (some (string_value t)) s = (0, s)
  push_result (some (pointer_value tid p)) s = (0, push_pointer tid p s)

  -- `wrap`: the function that Lua calls, of a method that changes a state `W`. `luaL_error` does not
  -- return.
  unfoldable pub wrap :
      {W : Type 0}
      → Str
      → List Kind
      → (List Value → W → Option Value × W)
      → S × W
      → Outcome ℕ × (S × W)
  wrap fn_name kinds method (s, w) =
      let errstr = fn_name ++ codes " : expected (" ++ format_args kinds ++ codes ")" in
      let got = codes " got (" ++ format_args_lua (length (A.view s).0) s ++ codes ")" in
      let (args, s') = gather (length kinds) kinds s in
      if check_args (length kinds) kinds s
      then elim args [
        | thrown e ↦ (thrown e, (s', w))
        | raised e ↦ (raised e, (s', w))
        | logic_error ↦ (logic_error, (s', w))
        | terminated ↦ (terminated, (s', w))
        | returned vs ↦
            let (result, w') = method vs w in
            let (pushed, s'') = push_result result s' in (returned pushed, (s'', w'))
      ]
      else (raised (A.where_at s ++ (errstr ++ got)), (s, w))
