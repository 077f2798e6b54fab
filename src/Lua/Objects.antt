-- ===== src/Lua/Objects.antt =====
-- `LuaIface::luaPush` and `GC::luaPush` of src/LuaUtils.hpp: an object becomes a value of Lua.
use hawck.Prelude.{
  ℕ, ◌≡◌, refl, ap, ◌∙◌, false, List, ◌∷◌, some, codes, ◌==◌, Bool-cases, inl, inr, if◌then◌else◌,
}
use hawck.Lua.{LuaApi, returned, thrown, pointer_kind, pointer_value, get, cast, provide}

module _ (A : LuaApi) where
  open A use {S, V}

  -- The block with the pointer, whose metatable has the methods of the class.
  unfoldable pub push_object : ℕ → ℕ → S → S
  push_object ptr tid s =
      let provided = provide A ptr tid s in
      let named = A.push (A.text (codes "__index")) (A.push (A.table provided) provided) in
      let filled = A.set_funcs tid (A.push (A.table named) named) in
      A.set_metatable (A.set_table 3 filled)

  -- Its metatable again, with a destructor that has the counter and `destroy` as upvalues.
  unfoldable pub push_shared : ℕ → ℕ → S → S
  push_shared ptr tid s =
      let named = A.push (A.text (codes "__gc")) (A.get_metatable 1 (push_object ptr tid s)) in
      let counter = A.push (A.upvalue 1 named) named in
      let destroy = A.push (A.upvalue 2 counter) counter in
      A.set_metatable (A.set_table 3 (A.push_closure 2 destroy))

  stack : S → List V
  stack s = (A.view s).0

  stack-push : (v : V) (s : S) → stack (A.push v s) ≡ v ∷ stack s
  unfolding stack
  stack-push v s = ap (λ p. p.0) (A.view-push v s)

  push_object_parts :
      (ptr tid : ℕ) (s : S)
      → (m : V) × (stack (push_object ptr tid s) ≡ A.block (ptr, tid) s ∷ stack s)
        × (A.metatable (A.block (ptr, tid) s) (A.view (push_object ptr tid s)).1 ≡ some m)
  unfolding push_object provide stack
  push_object_parts ptr tid s =
      let provided = provide A ptr tid s in
      let named = A.push (A.text (codes "__index")) (A.push (A.table provided) provided) in
      let filled = A.set_funcs tid (A.push (A.table named) named) in
      let full : (A.view (A.set_table 3 filled)).0
          ≡ A.table provided ∷ A.block (ptr, tid) s ∷ (A.view s).0 =
        simp (A.view-set_table, A.view-set_funcs, A.view-push) in
      let (left, meta) = A.view-set_metatable _ _ _ _ full in (A.table provided, left, meta)

  push_shared-stack :
      (ptr tid : ℕ) (s : S) → stack (push_shared ptr tid s) ≡ A.block (ptr, tid) s ∷ stack s
  unfolding push_shared stack
  push_shared-stack ptr tid s =
      let (m, top, meta) = push_object_parts ptr tid s in
      let pushed = push_object ptr tid s in
      let again : A.view (A.get_metatable 1 pushed) ≡ (m ∷ (A.view pushed).0, (A.view pushed).1) =
        A.view-get_metatable 1 pushed (A.block (ptr, tid) s) m (rw top refl) meta in
      let left = ap (λ p. p.0) again ∙ ap (λ vs. m ∷ vs) top in
      let named = A.push (A.text (codes "__gc")) (A.get_metatable 1 pushed) in
      let counter = A.push (A.upvalue 1 named) named in
      let destroy = A.push (A.upvalue 2 counter) counter in
      let filled : (A.view (A.set_table 3 (A.push_closure 2 destroy))).0
          ≡ m ∷ A.block (ptr, tid) s ∷ (A.view s).0 =
        simp (A.view-set_table, A.view-push_closure, A.view-push, left) in
      (A.view-set_metatable _ _ _ _ filled).0

  got :
      (ptr tid t : ℕ) (s s' : S)
      → (ptr == 0) ≡ false
      → stack s' ≡ A.block (ptr, tid) s ∷ stack s
      → get A (pointer_kind t) 1 s' ≡ (
        (if tid == t then returned (pointer_value t ptr) else thrown (codes "Attempted to cast")),
        s',
      )
  unfolding stack get cast
  got ptr tid t s s' h top =
      let found = A.value_at-view 1 s' (A.block (ptr, tid) s) (rw top refl) in
      rw (found, A.type_of-block (ptr, tid) s, A.content-block (ptr, tid) s, h)
        (elim (Bool-cases (tid == t)) [ inl e ↦ rw e refl | inr e ↦ rw e refl ])

  -- An object that is pushed is one value more on the stack; `LuaValue<T *>::get` gives its pointer if
  -- `T` is the type that it was pushed with, and a `LuaError` for any other. So it is for an object
  -- that Lua is to collect.
  pub get-push_shared :
      (ptr tid t : ℕ) (s : S)
      → (ptr == 0) ≡ false
      → (get A (pointer_kind t) 1 (push_object ptr tid s) ≡ (
        (if tid == t then returned (pointer_value t ptr) else thrown (codes "Attempted to cast")),
        push_object ptr tid s,
      ))
        × (get A (pointer_kind t) 1 (push_shared ptr tid s) ≡ (
          (if tid == t then returned (pointer_value t ptr) else thrown (codes "Attempted to cast")),
          push_shared ptr tid s,
        ))
        × ((A.view (push_object ptr tid s)).0 ≡ A.block (ptr, tid) s ∷ (A.view s).0)
        × ((A.view (push_shared ptr tid s)).0 ≡ A.block (ptr, tid) s ∷ (A.view s).0)
  unfolding stack
  get-push_shared ptr tid t s h = (
    got ptr tid t s (push_object ptr tid s) h (push_object_parts ptr tid s).1,
    got ptr tid t s (push_shared ptr tid s) h (push_shared-stack ptr tid s),
    (push_object_parts ptr tid s).1,
    push_shared-stack ptr tid s,
  )
