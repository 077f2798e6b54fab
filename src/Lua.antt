-- ===== src/Lua.antt =====
-- src/LuaUtils.hpp: the values that pass between C++ and Lua, `LuaValue<T>::get` and `luaPush`. The C
-- API of Lua is an interface.
pub mod Errors
pub mod Objects
pub mod Method
pub mod Arguments
pub mod Vectors
pub mod Script
pub mod Gc
pub mod Timeout
mod Sample
mod Examples
use hawck.Prelude.{
  ℕ, zero, suc, ◌+◌, ◌≡◌, Bool, true, false, not, List, [], ◌∷◌, ◌++◌, Option, none, some, Str,
  codes, ◌==◌, length, get_elem?, drop, if◌then◌else◌,
}
use hawck.Prelude.Int.{ℤ, pos, to_int}

pub data LuaType : Type 0 where
  nil_type boolean_type light_userdata_type number_type string_type table_type : LuaType
  function_type userdata_type thread_type : LuaType

-- `lua_type_names`.
abbrev pub type_name : LuaType → Str
type_name nil_type = codes "nil"
type_name boolean_type = codes "boolean"
type_name light_userdata_type = codes "lightuserdata"
type_name number_type = codes "number"
type_name string_type = codes "string"
type_name table_type = codes "table"
type_name function_type = codes "function"
type_name userdata_type = codes "userdata"
type_name thread_type = codes "thread"

-- What stands at the index `-i` of a stack, the top first.
abbrev pub at {ℓ} : {A : Type ℓ} → ℕ → List A → Option A
at zero vs = none
at (suc i) vs = get_elem? vs i

-- The stack after values are pushed, in order.
abbrev pub pushed {ℓ} : {V : Type ℓ} → List V → List V → List V
pushed [] vs = vs
pushed (x ∷ xs) vs = pushed xs (x ∷ vs)

-- As many of the results as are asked for, with nil for those that lack.
abbrev pub adjusted {ℓ} : {V : Type ℓ} → V → ℕ → List V → List V
adjusted nil zero rs = []
adjusted nil (suc n) [] = nil ∷ adjusted nil n []
adjusted nil (suc n) (r ∷ rs) = r ∷ adjusted nil n rs

-- A file, or the text of a chunk.
pub data Source : Type 0 where
  file chunk : Str → Source

-- What a call of Lua code ends in: its results, or one error value. The memory can change.
pub data Called (V G : Type 0) : Type 0 where
  results : List V → G → Called V G
  failed : V → G → Called V G

-- The C API. `view` is the stack, its top first, and the memory behind it; the index `-i` is written
-- `i`. Each law is the manual's account of a call. Calls that run metamethods are taken to return.
pub record LuaApi : Type 1 where
  pub S : Type 0
  pub V : Type 0
  pub G : Type 0
  pub view : S → List V × G
  pub type_of : V → LuaType
  pub value_at : ℕ → S → V
  pub value_at-view : (i : ℕ) (s : S) (v : V) → at i (view s).0 ≡ some v → value_at i s ≡ v
  pub nil : V
  pub boolean : Bool → V
  pub number : ℤ → V
  pub text : Str → V
  pub is_number : V → Bool
  pub to_integer : V → ℤ
  pub to_boolean : V → Bool
  pub to_text : ℕ → S → Option Str × S
  pub to_text-text :
      (i : ℕ) (s : S) (b : Str) → at i (view s).0 ≡ some (text b) → to_text i s ≡ (some b, s)
  pub to_text-table :
      (i : ℕ) (s : S) (v : V)
      → at i (view s).0 ≡ some v
      → type_of v ≡ table_type
      → to_text i s ≡ (none, s)
  -- The pointer and the type that a block of userdata holds, and such a block made on a state.
  pub content : V → ℕ × ℕ
  pub block : ℕ × ℕ → S → V
  pub type_of-nil : type_of nil ≡ nil_type
  pub type_of-boolean : (b : Bool) → type_of (boolean b) ≡ boolean_type
  pub type_of-number : (n : ℤ) → type_of (number n) ≡ number_type
  pub type_of-text : (b : Str) → type_of (text b) ≡ string_type
  pub type_of-block : (p : ℕ × ℕ) (s : S) → type_of (block p s) ≡ userdata_type
  -- The text of `luaL_where(L, 1)`, with which the message of `luaL_error` starts.
  pub where_at : S → Str
  pub is_number-number : (n : ℤ) → is_number (number n) ≡ true
  pub to_integer-number : (n : ℤ) → to_integer (number n) ≡ n
  pub to_boolean-boolean : (b : Bool) → to_boolean (boolean b) ≡ b
  pub content-block : (p : ℕ × ℕ) (s : S) → content (block p s) ≡ p
  pub push : V → S → S
  pub view-push : (v : V) (s : S) → view (push v s) ≡ (v ∷ (view s).0, (view s).1)
  pub pop : ℕ → S → S
  pub view-pop : (n : ℕ) (s : S) → view (pop n s) ≡ (drop n (view s).0, (view s).1)
  -- `lua_getglobal`, `lua_getfield`, and `lua_gettable` at the index -2.
  pub global : Str → G → V
  pub get_global : Str → S → S
  pub view-get_global :
      (name : Str) (s : S)
      → view (get_global name s) ≡ (global name (view s).1 ∷ (view s).0, (view s).1)
  pub set_global : Str → S → S
  pub view-set_global : (name : Str) (s : S) → (view (set_global name s)).0 ≡ drop 1 (view s).0
  pub field : V → Str → G → V
  pub get_field : ℕ → Str → S → S
  pub view-get_field :
      (i : ℕ) (name : Str) (s : S) (t : V)
      → at i (view s).0 ≡ some t
      → view (get_field i name s) ≡ (field t name (view s).1 ∷ (view s).0, (view s).1)
  pub element : V → V → G → V
  pub get_table : S → S
  pub view-get_table :
      (s : S) (k t : V) (vs : List V)
      → (view s).0 ≡ k ∷ t ∷ vs
      → view (get_table s) ≡ (element t k (view s).1 ∷ t ∷ vs, (view s).1)
  -- Tables that are made, filled and made metatables; closures take their upvalues from the stack.
  pub table : S → V
  pub set_funcs : ℕ → S → S
  pub view-set_funcs : (tid : ℕ) (s : S) → (view (set_funcs tid s)).0 ≡ (view s).0
  pub set_table : ℕ → S → S
  pub view-set_table : (i : ℕ) (s : S) → (view (set_table i s)).0 ≡ drop 2 (view s).0
  pub upvalue : ℕ → S → V
  pub closure : S → V
  pub push_closure : ℕ → S → S
  pub view-push_closure :
      (n : ℕ) (s : S) → (view (push_closure n s)).0 ≡ closure s ∷ drop n (view s).0
  -- `lua_getmetatable`: nothing is pushed where there is none.
  pub metatable : V → G → Option V
  pub get_metatable : ℕ → S → S
  pub view-get_metatable :
      (i : ℕ) (s : S) (v m : V)
      → at i (view s).0 ≡ some v
      → metatable v (view s).1 ≡ some m
      → view (get_metatable i s) ≡ (m ∷ (view s).0, (view s).1)
  pub view-no_metatable :
      (i : ℕ) (s : S) (v : V)
      → at i (view s).0 ≡ some v
      → metatable v (view s).1 ≡ none
      → view (get_metatable i s) ≡ view s
  pub set_metatable : S → S
  pub view-set_metatable :
      (s : S) (v m : V) (vs : List V)
      → (view s).0 ≡ m ∷ v ∷ vs
      → ((view (set_metatable s)).0 ≡ v ∷ vs) × (metatable v (view (set_metatable s)).1 ≡ some m)
  -- `lua_pcall` of a function on arguments. The error handler of the program makes a `LuaError` of an
  -- error value, to which `error_of` is a pointer; `m` is the handler's index, or 0 for none.
  pub handler : V
  pub type_of-handler : type_of handler ≡ function_type
  pub is_number-function : (v : V) → type_of v ≡ function_type → is_number v ≡ false
  pub run : V → List V → G → Called V G
  pub handled : V → V → G → V
  pub error_of : V → Option Str
  pub pcall : ℕ → ℕ → ℕ → S → Bool × S
  pub pcall-results :
      (xs vs rs : List V) (n m : ℕ) (s : S) (f : V) (g : G)
      → (view s).0 ≡ pushed xs (f ∷ vs)
      → run f xs (view s).1 ≡ results rs g
      → ((pcall (length xs) n m s).0 ≡ true)
        × (view (pcall (length xs) n m s).1 ≡ (pushed (adjusted nil n rs) vs, g))
  pub pcall-failed :
      (xs vs : List V) (n m : ℕ) (s : S) (f h e : V) (g : G)
      → (view s).0 ≡ pushed xs (f ∷ vs)
      → run f xs (view s).1 ≡ failed e g
      → at m (view s).0 ≡ some h
      → ((pcall (length xs) n m s).0 ≡ false)
        × (view (pcall (length xs) n m s).1 ≡ (handled h e g ∷ vs, g))
  pub pcall-unhandled :
      (xs vs : List V) (n : ℕ) (s : S) (f e : V) (g : G)
      → (view s).0 ≡ pushed xs (f ∷ vs)
      → run f xs (view s).1 ≡ failed e g
      → ((pcall (length xs) n 0 s).0 ≡ false) × (view (pcall (length xs) n 0 s).1 ≡ (e ∷ vs, g))
  -- `luaL_loadfile` and `luaL_loadstring`: a function, or a message.
  pub loaded : Source → G → Bool × V
  pub load : Source → S → Bool × S
  pub load-view :
      (c : Source) (s : S)
      → ((load c s).0 ≡ (loaded c (view s).1).0)
        × (view (load c s).1 ≡ ((loaded c (view s).1).1 ∷ (view s).0, (view s).1))

-- A value, a C++ exception of class `LuaError`, a Lua error, the `std::logic_error` of a string that is
-- made of a null pointer, or the end of the program by `std::terminate`.
pub data Outcome {ℓ} (A : Type ℓ) : Type ℓ where
  returned : A → Outcome A
  thrown : Str → Outcome A
  raised : Str → Outcome A
  logic_error terminated : Outcome A

-- The types of C++ that the bindings are used with; a pointer goes with the id of what it points to.
pub data Kind : Type 0 where
  int_kind bool_kind string_kind : Kind
  pointer_kind : ℕ → Kind

pub data Value : Type 0 where
  int_value : ℤ → Value
  bool_value : Bool → Value
  string_value : Str → Value
  pointer_value : ℕ → ℕ → Value

abbrev pub is_userdata : LuaType → Bool
is_userdata light_userdata_type = true
is_userdata userdata_type = true
is_userdata t = false

abbrev pub is_boolean : LuaType → Bool
is_boolean boolean_type = true
is_boolean t = false

module _ (A : LuaApi) where
  open A use {S, V}

  -- `UncheckedLuaPtr` from a block, cast to `LuaPtr<T>`. A null pointer is 0; the messages, which go on
  -- with names of types, are cut.
  unfoldable pub cast : ℕ → ℕ × ℕ → Outcome ℕ
  cast tid (ptr, type_id) =
      if ptr == 0
      then thrown (codes "Attempted to cast null pointer")
      else if type_id == tid
      then returned ptr
      else thrown (codes "Attempted to cast")

  abbrev pub pointer_of : ℕ → Outcome ℕ → Outcome Value
  pointer_of tid (returned p) = returned (pointer_value tid p)
  pointer_of tid (thrown e) = thrown e
  pointer_of tid (raised e) = raised e
  pointer_of tid logic_error = logic_error
  pointer_of tid terminated = terminated

  -- `LuaValue<T>::get`; a `lua_Integer` is narrowed to an `int`.
  unfoldable pub get : Kind → ℕ → S → Outcome Value × S
  get int_kind i s =
      if A.is_number (A.value_at i s)
      then (returned (int_value (to_int (A.to_integer (A.value_at i s)))), s)
      else (thrown (codes "Expected number"), s)
  get bool_kind i s =
      if is_boolean (A.type_of (A.value_at i s))
      then (returned (bool_value (A.to_boolean (A.value_at i s))), s)
      else (thrown (codes "Expected boolean"), s)
  get string_kind i s =
      let (text, s') = A.to_text i s in
      (returned (string_value (elim text [ none ↦ [] | some b ↦ b ])), s')
  get (pointer_kind tid) i s =
      if is_userdata (A.type_of (A.value_at i s))
      then (pointer_of tid (cast tid (A.content (A.value_at i s))), s)
      else (thrown (codes "Expected userdata"), s)

  -- `LuaPtr<T>::provide`: a block with the pointer and the id of its type.
  unfoldable pub provide : ℕ → ℕ → S → S
  provide ptr tid s = A.push (A.block (ptr, tid) s) s
