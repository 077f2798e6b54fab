-- ===== src/Lua/Sample.antt =====
-- Test data: a small Lua whose functions return their arguments, and fail on none.
use hawck.Prelude.{
  ℕ, zero, suc, ◌+◌, ◌≡◌, refl, ap, ◌∙◌, Bool, true, false, List, [], ◌∷◌, ◌++◌, Option, none, some,
  Str, codes, length, drop, ◌==◌, arith, if◌then◌else◌,
}
use mathlib.Core.List.{append-nil}
use hawck.Prelude.Int.{ℤ, pos}
use hawck.Lua.{
  LuaType, nil_type, boolean_type, number_type, string_type, table_type, function_type,
  userdata_type, Called, results, failed, LuaApi, at, pushed, adjusted,
}

pub data Toy : Type 0 where
  nothing function table : Toy
  flag : Bool → Toy
  num : ℤ → Toy
  txt : Str → Toy
  pointed : ℕ × ℕ → Toy

abbrev pub Memory : Type 0
Memory = Option Toy

abbrev pub State : Type 0
State = List Toy × Memory

abbrev pub toy_type : Toy → LuaType
toy_type nothing = nil_type
toy_type function = function_type
toy_type table = table_type
toy_type (flag b) = boolean_type
toy_type (num n) = number_type
toy_type (txt t) = string_type
toy_type (pointed p) = userdata_type

abbrev pub or_nothing : Option Toy → Toy
or_nothing none = nothing
or_nothing (some v) = v

abbrev pub text_of : Toy → Option Str
text_of (txt t) = some t
text_of v = none

abbrev pub number_of : Toy → ℤ
number_of (num n) = n
number_of v = pos 0

abbrev pub flag_of : Toy → Bool
flag_of (flag b) = b
flag_of v = false

abbrev pub pointed_of : Toy → ℕ × ℕ
pointed_of (pointed p) = p
pointed_of v = (0, 0)

abbrev pub is_num : Toy → Bool
is_num (num n) = true
is_num v = false

abbrev pub first : Toy → ℤ → Toy
first t (pos n) = if n == 1 then num (pos 7) else nothing
first t n = nothing

abbrev pub metatable_on : Memory → State → State
metatable_on none s = s
metatable_on (some m) (st, g) = (m ∷ st, g)

abbrev pub with_element : State → State
with_element (k ∷ t ∷ vs, g) = (first t (number_of k) ∷ t ∷ vs, g)
with_element s = s

abbrev pub with_metatable : State → State
with_metatable (m ∷ v ∷ vs, g) = (v ∷ vs, some m)
with_metatable s = s

-- The top of a stack, in the order in which it was pushed, and what is below.
unfoldable pub unpushed : ℕ → List Toy → List Toy → List Toy × List Toy
unpushed zero st xs = (xs, st)
unpushed (suc n) [] xs = (xs, [])
unpushed (suc n) (x ∷ st) xs = unpushed n st (x ∷ xs)

unpushed-pushed :
    (xs vs ys : List Toy) (n : ℕ)
    → unpushed (length xs + n) (pushed xs vs) ys ≡ unpushed n vs (xs ++ ys)
unfolding unpushed
unpushed-pushed [] vs ys n = ap (λ i. unpushed i vs ys) (omega arith)
unpushed-pushed (x ∷ xs) vs ys n =
    let e : length (x ∷ xs) + n ≡ length xs + suc n = omega arith in
    rw e (unpushed-pushed xs (x ∷ vs) ys (suc n))

abbrev pub echo : Toy → List Toy → Memory → Called Toy Memory
echo f [] g = failed (txt (codes "no arguments")) g
echo f (x ∷ xs) g = results (x ∷ xs) g

abbrev pub ended : ℕ → List Toy → Called Toy Memory → Bool × State
ended n vs (results rs g) = (true, (pushed (adjusted nothing n rs) vs, g))
ended n vs (failed e g) = (false, (e ∷ vs, g))

abbrev pub called_on : ℕ → State → List Toy × List Toy → Bool × State
called_on n s (xs, []) = (false, s)
called_on n s (xs, f ∷ vs) = ended n vs (echo f xs s.1)

abbrev pub toy_pcall : ℕ → ℕ → State → Bool × State
toy_pcall nargs n s = called_on n s (unpushed nargs s.0 [])

pub toy_pcall-pushed :
    (xs vs : List Toy) (n : ℕ) (s : State) (f : Toy) (c : Called Toy Memory)
    → s.0 ≡ pushed xs (f ∷ vs)
    → echo f xs s.1 ≡ c
    → toy_pcall (length xs) n s ≡ ended n vs c
unfolding unpushed
toy_pcall-pushed xs vs n s f c h gives =
    let e : length xs ≡ length xs + 0 = omega arith in
    let taken : unpushed (length xs) s.0 [] ≡ (xs, f ∷ vs) =
      ap (λ i. unpushed i s.0 []) e
      ∙ ap (λ l. unpushed (length xs + 0) l []) h
      ∙ unpushed-pushed xs (f ∷ vs) [] 0
      ∙ ap (λ l. (l, f ∷ vs)) (append-nil xs) in
    ap (called_on n s) taken ∙ ap (ended n vs) gives

pub toy_value : (i : ℕ) (s : State) (v : Toy) → at i s.0 ≡ some v → or_nothing (at i s.0) ≡ v
toy_value i s v h = ap or_nothing h

pub toy_text :
    (i : ℕ) (s : State) (b : Str)
    → at i s.0 ≡ some (txt b)
    → ◌≡◌ {A = Option Str × State} (text_of (or_nothing (at i s.0)), s) (some b, s)
toy_text i s b h = ap (λ v. (text_of (or_nothing v), s)) h

pub not_text : (v : Toy) → toy_type v ≡ table_type → text_of v ≡ none
not_text nothing h = refl
not_text function h = refl
not_text table h = refl
not_text (flag b) h = refl
not_text (num n) h = refl
not_text (txt t) h = cc h
not_text (pointed p) h = refl

pub not_number : (v : Toy) → toy_type v ≡ function_type → is_num v ≡ false
not_number nothing h = refl
not_number function h = refl
not_number table h = refl
not_number (flag b) h = refl
not_number (num n) h = cc h
not_number (txt t) h = refl
not_number (pointed p) h = refl

pub toy_element :
    (s : State) (k t : Toy) (vs : List Toy)
    → s.0 ≡ k ∷ t ∷ vs
    → with_element s ≡ (first t (number_of k) ∷ t ∷ vs, s.1)
toy_element (st, g) k t vs h = ap (λ l. with_element (l, g)) h

pub toy_metatable : (s : State) (m : Toy) → s.1 ≡ some m → metatable_on s.1 s ≡ (m ∷ s.0, s.1)
toy_metatable (st, g) m h = ap (λ o. metatable_on o (st, g)) h

pub toy_bare : (s : State) → s.1 ≡ none → metatable_on s.1 s ≡ s
toy_bare (st, g) h = ap (λ o. metatable_on o (st, g)) h

pub toy_set :
    (s : State) (v m : Toy) (vs : List Toy)
    → s.0 ≡ m ∷ v ∷ vs
    → ((with_metatable s).0 ≡ v ∷ vs) × ((with_metatable s).1 ≡ some m)
toy_set (st, g) v m vs h =
    (ap (λ l. (with_metatable (l, g)).0) h, ap (λ l. (with_metatable (l, g)).1) h)

abbrev pub toy : LuaApi
toy = record {
  S = State;
  V = Toy;
  G = Memory;
  view = λ s. s;
  type_of = toy_type;
  value_at = λ i s. or_nothing (at i s.0);
  value_at-view = toy_value;
  nil = nothing;
  boolean = flag;
  number = num;
  text = txt;
  is_number = is_num;
  to_integer = number_of;
  to_boolean = flag_of;
  to_text = λ i s. (text_of (or_nothing (at i s.0)), s);
  to_text-text = toy_text;
  to_text-table = λ i s v h k. ap (λ o. (o, s)) (ap (λ o. text_of (or_nothing o)) h ∙ not_text v k);
  content = pointed_of;
  block = λ p s. pointed p;
  type_of-nil = refl;
  type_of-boolean = λ b. refl;
  type_of-number = λ n. refl;
  type_of-text = λ b. refl;
  type_of-block = λ p s. refl;
  where_at = λ s. [];
  is_number-number = λ n. refl;
  to_integer-number = λ n. refl;
  to_boolean-boolean = λ b. refl;
  content-block = λ p s. refl;
  push = λ v s. (v ∷ s.0, s.1);
  view-push = λ v s. refl;
  pop = λ n s. (drop n s.0, s.1);
  view-pop = λ n s. refl;
  global = λ name g. function;
  get_global = λ name s. (function ∷ s.0, s.1);
  view-get_global = λ name s. refl;
  set_global = λ name s. (drop 1 s.0, s.1);
  view-set_global = λ name s. refl;
  field = λ t name g. function;
  get_field = λ i name s. (function ∷ s.0, s.1);
  view-get_field = λ i name s t h. refl;
  element = λ t k g. first t (number_of k);
  get_table = with_element;
  view-get_table = toy_element;
  table = λ s. table;
  set_funcs = λ tid s. s;
  view-set_funcs = λ tid s. refl;
  set_table = λ i s. (drop 2 s.0, s.1);
  view-set_table = λ i s. refl;
  upvalue = λ i s. pointed (i, i);
  closure = λ s. function;
  push_closure = λ n s. (function ∷ drop n s.0, s.1);
  view-push_closure = λ n s. refl;
  metatable = λ v g. g;
  get_metatable = λ i s. metatable_on s.1 s;
  view-get_metatable = λ i s v m h e. toy_metatable s m e;
  view-no_metatable = λ i s v h e. toy_bare s e;
  set_metatable = with_metatable;
  view-set_metatable = toy_set;
  handler = function;
  type_of-handler = refl;
  is_number-function = not_number;
  run = echo;
  handled = λ h e g. e;
  error_of = text_of;
  pcall = λ nargs n m s. toy_pcall nargs n s;
  pcall-results = λ xs vs rs n m s f g h e.
      let out = toy_pcall-pushed xs vs n s f (results rs g) h e in
      (ap (λ r. r.0) out, ap (λ r. r.1) out);
  pcall-failed = λ xs vs n m s f h e g top gives found.
      let out = toy_pcall-pushed xs vs n s f (failed e g) top gives in
      (ap (λ r. r.0) out, ap (λ r. r.1) out);
  pcall-unhandled = λ xs vs n s f e g top gives.
      let out = toy_pcall-pushed xs vs n s f (failed e g) top gives in
      (ap (λ r. r.0) out, ap (λ r. r.1) out);
  loaded = λ c g. (true, function);
  load = λ c s. (true, (function ∷ s.0, s.1));
  load-view = λ c s. (refl, refl);
}
