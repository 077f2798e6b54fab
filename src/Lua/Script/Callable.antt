-- ===== src/Lua/Script/Callable.antt =====
-- `isCallable` of src/LuaUtils.cpp: what it finds, and what it leaves on the stack.
use hawck.Prelude.{
  ℕ, zero, suc, ◌+◌, ◌≡◌, ◌≤◌, refl, sym, ap, ◌∙◌, Bool, true, false, List, ◌∷◌, none, some, codes,
  arith,
}
use mathlib.Core.Path.{subst}
use hawck.Lua.{table_type, function_type, LuaApi, at, returned}
use hawck.Lua.Script.{is_function, is_table, layers, callable_from, is_callable}

module _ (A : LuaApi) where
  open A use {S, V, G}

  -- A function, or what has a metatable with a callable `__call`, through so many metatables.
  pub data Callable (g : G) : ℕ → V → Type 0 where
    by_function : {n : ℕ} {v : V} → A.type_of v ≡ function_type → Callable g n v
    by_call :
        {n : ℕ} {v m : V}
        → is_function (A.type_of v) ≡ false
        → A.metatable v g ≡ some m
        → A.type_of m ≡ table_type
        → Callable g n (A.field m (codes "__call") g)
        → Callable g (suc n) v

  callable_from-function :
      (n i : ℕ) (s : S) (v : V)
      → at i (A.view s).0 ≡ some v
      → is_function (A.type_of v) ≡ true
      → callable_from A (suc n) i s ≡ (returned true, s)
  unfolding callable_from
  callable_from-function n i s v found kind = rw (A.value_at-view i s v found, kind) refl

  callable_from-no_table :
      (n i : ℕ) (s : S) (v m : V)
      → at i (A.view s).0 ≡ some v
      → is_function (A.type_of v) ≡ false
      → at 1 (A.view (A.get_metatable i s)).0 ≡ some m
      → is_table (A.type_of m) ≡ false
      → callable_from A (suc n) i s ≡ (returned false, A.pop 1 (A.get_metatable i s))
  unfolding callable_from
  callable_from-no_table n i s v m found no_function top no_table =
      rw
        (
          A.value_at-view i s v found,
          no_function,
          A.value_at-view 1 (A.get_metatable i s) m top,
          no_table,
        )
        refl

  callable_from-table :
      (n i : ℕ) (s s' : S) (v m : V) (b : Bool)
      → at i (A.view s).0 ≡ some v
      → is_function (A.type_of v) ≡ false
      → at 1 (A.view (A.get_metatable i s)).0 ≡ some m
      → is_table (A.type_of m) ≡ true
      → callable_from A n 1 (A.get_field 1 (codes "__call") (A.get_metatable i s))
        ≡ (returned b, s')
      → callable_from A (suc n) i s ≡ (returned b, A.pop 2 s')
  unfolding callable_from
  callable_from-table n i s s' v m b found no_function top table inner =
      rw
        (
          A.value_at-view i s v found,
          no_function,
          A.value_at-view 1 (A.get_metatable i s) m top,
          table,
        )
        (rw (ap (λ r. r.0) inner, ap (λ r. r.1) inner) refl)

  callable_from-Callable :
      (fuel : ℕ) {n : ℕ} {v : V} (i : ℕ) (s : S)
      → n + 1 ≤ fuel
      → at i (A.view s).0 ≡ some v
      → Callable (A.view s).1 n v
      → (s' : S) × (callable_from A fuel i s ≡ (returned true, s')) × (A.view s' ≡ A.view s)
  callable_from-Callable zero i s enough found c = absurd (omega arith)
  callable_from-Callable (suc fuel) i s enough found (by_function {n} {v} kind) =
      (s, callable_from-function fuel i s v found (rw kind refl), refl)
  callable_from-Callable (suc fuel) i s enough found
        (by_call {n} {v} {m} no_function meta kind inner) =
      let g = (A.view s).1 in
      let f = A.field m (codes "__call") g in
      let s1 = A.get_metatable i s in
      let s2 = A.get_field 1 (codes "__call") s1 in
      let view1 = A.view-get_metatable i s v m found meta in
      let top1 : at 1 (A.view s1).0 ≡ some m = rw view1 refl in
      let view2 : A.view s2 ≡ (f ∷ m ∷ (A.view s).0, g) =
        A.view-get_field 1 (codes "__call") s1 m top1 ∙ rw view1 refl in
      let inner2 : Callable (A.view s2).1 n f =
        subst (λ x. Callable x n f) (sym (ap (λ p. p.1) view2)) inner in
      let (s3, found_true, view3) =
        callable_from-Callable fuel 1 s2 (omega arith) (rw view2 refl) inner2 in
      (
        A.pop 2 s3,
        callable_from-table fuel i s s3 v m true found no_function top1 (rw kind refl) found_true,
        A.view-pop 2 s3 ∙ rw (view3, view2) refl,
      )

  -- `isCallable` is true of every function, and of what is callable through up to 32 metatables, and
  -- leaves the stack as it was.
  pub is_callable-Callable :
      {n : ℕ} {v : V} (i : ℕ) (s : S)
      → n ≤ 32
      → at i (A.view s).0 ≡ some v
      → Callable (A.view s).1 n v
      → (s' : S) × (is_callable A i s ≡ (returned true, s')) × (A.view s' ≡ A.view s)
  unfolding is_callable
  is_callable-Callable i s few found c = callable_from-Callable layers i s (omega arith) found c

  -- What `isCallable` says of a value without a metatable that is no function.
  pub data Bare (g : G) : V → Bool → Type 0 where
    not_table : {v : V} → is_table (A.type_of v) ≡ false → Bare g v false
    own_field :
        {v : V}
        → is_table (A.type_of v) ≡ true
        → A.type_of (A.field v (codes "__call") g) ≡ function_type
        → Bare g v true

  callable_from-Bare :
      {v : V} {b : Bool} (n : ℕ) (s : S) (vs : List V)
      → (A.view s).0 ≡ v ∷ vs
      → is_function (A.type_of v) ≡ false
      → A.metatable v (A.view s).1 ≡ none
      → Bare (A.view s).1 v b
      → (s' : S) × (callable_from A (suc (suc n)) 1 s ≡ (returned b, s'))
        × (A.view s' ≡ (vs, (A.view s).1))
  callable_from-Bare n s vs h no_function bare (not_table {v} no_table) =
      let s1 = A.get_metatable 1 s in
      let top : at 1 (A.view s).0 ≡ some v = rw h refl in
      let view1 : A.view s1 ≡ A.view s = A.view-no_metatable 1 s v top bare in
      (
        A.pop 1 s1,
        callable_from-no_table (suc n) 1 s v v top no_function (rw (view1, h) refl) no_table,
        A.view-pop 1 s1 ∙ rw (view1, h) refl,
      )
  callable_from-Bare n s vs h no_function bare (own_field {v} table kind) =
      let s1 = A.get_metatable 1 s in
      let s2 = A.get_field 1 (codes "__call") s1 in
      let f = A.field v (codes "__call") (A.view s).1 in
      let top : at 1 (A.view s).0 ≡ some v = rw h refl in
      let view1 : A.view s1 ≡ A.view s = A.view-no_metatable 1 s v top bare in
      let top1 : at 1 (A.view s1).0 ≡ some v = rw (view1, h) refl in
      let view2 : A.view s2 ≡ (f ∷ v ∷ vs, (A.view s).1) =
        A.view-get_field 1 (codes "__call") s1 v top1 ∙ rw (view1, h) refl in
      let inner = callable_from-function n 1 s2 f (rw view2 refl) (rw kind refl) in
      (
        A.pop 2 s2,
        callable_from-table (suc n) 1 s s2 v v true top no_function top1 table inner,
        A.view-pop 2 s2 ∙ rw view2 refl,
      )

  -- Of a value on top of the stack that has no metatable and is no function, `isCallable` takes the
  -- value itself off the stack. It is false if that is no table, and true of a table whose own field
  -- `__call` is a function, though Lua cannot call such a table.
  pub is_callable-Bare :
      {v : V} {b : Bool} (s : S) (vs : List V)
      → (A.view s).0 ≡ v ∷ vs
      → is_function (A.type_of v) ≡ false
      → A.metatable v (A.view s).1 ≡ none
      → Bare (A.view s).1 v b
      → (s' : S) × (is_callable A 1 s ≡ (returned b, s')) × (A.view s' ≡ (vs, (A.view s).1))
  unfolding is_callable
  is_callable-Bare s vs h no_function bare shown =
      callable_from-Bare 31 s vs h no_function bare shown
