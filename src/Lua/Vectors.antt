-- ===== src/Lua/Vectors.antt =====
-- `LuaValue<std::vector<T>>::get` of src/LuaUtils.hpp: the array part of a table.
use hawck.Prelude.{
  ℕ, zero, suc, ◌+◌, ◌≡◌, ◌<◌, refl, ap, ◌∙◌, Bool, true, false, List, [], ◌∷◌, Option, none, some,
  codes, length, arith, if◌then◌else◌,
}
use hawck.Prelude.Int.{pos}
use hawck.Lua.{
  LuaType, nil_type, table_type, LuaApi, at, Outcome, returned, thrown, raised, logic_error,
  terminated, Kind, Value, get,
}
use hawck.Lua.Arguments.{Holds, int_arg, bool_arg, text_arg, pointer_arg, get-Holds}
use hawck.Lua.Script.{is_table}

abbrev pub is_nil : LuaType → Bool
is_nil nil_type = true
is_nil t = false

module _ (A : LuaApi) (k : Kind) where
  open A use {S, V, G}

  -- One element before the rest.
  abbrev pub join_item :
      Value → Option (Outcome (List Value) × S) → Option (Outcome (List Value) × S)
  join_item v none = none
  join_item v (some (returned vs, s)) = some (returned (v ∷ vs), s)
  join_item v (some (thrown e, s)) = some (thrown e, s)
  join_item v (some (raised e, s)) = some (raised e, s)
  join_item v (some (logic_error, s)) = some (logic_error, s)
  join_item v (some (terminated, s)) = some (terminated, s)

  -- The loop from the index `n` on, on so many rounds.
  unfoldable pub items_from : ℕ → ℕ → S → Option (Outcome (List Value) × S)
  items_from zero n s = none
  items_from (suc rounds) n s =
      let s1 = A.get_table (A.push (A.number (pos n)) s) in
      let item = get A k 1 s1 in
      let more = items_from rounds (n + 1) (A.pop 1 item.1) in
      let read : Option (Outcome (List Value) × S) = elim item.0 [
        | returned v ↦ join_item v more
        | thrown e ↦ some (thrown e, item.1)
        | raised e ↦ some (raised e, item.1)
        | logic_error ↦ some (logic_error, item.1)
        | terminated ↦ some (terminated, item.1)
      ] in
      if is_nil (A.type_of (A.value_at 1 s1)) then some (returned [], s1) else read

  unfoldable pub get_vector : ℕ → ℕ → S → Option (Outcome (List Value) × S)
  get_vector rounds i s =
      let s1 = A.push (A.value_at i s) s in
      let items = items_from rounds 1 s1 in
      if is_table (A.type_of (A.value_at 1 s1))
      then items
      else some (thrown (codes "Expected a table"), s1)

  -- From an index on a table has these values, and then nil.
  pub data Listed (t : V) (g : G) : ℕ → List Value → Type 0 where
    ends : {n : ℕ} → A.type_of (A.element t (A.number (pos n)) g) ≡ nil_type → Listed t g n []
    item :
        {n : ℕ} {v : Value} {vs : List Value}
        → Holds A k v (A.element t (A.number (pos n)) g)
        → Listed t g (n + 1) vs
        → Listed t g n (v ∷ vs)

  not_nil : {j : Kind} {v : Value} {x : V} → Holds A j v x → is_nil (A.type_of x) ≡ false
  not_nil (int_arg n) = rw (A.type_of-number n) refl
  not_nil (bool_arg b) = rw (A.type_of-boolean b) refl
  not_nil (text_arg t) = rw (A.type_of-text t) refl
  not_nil (pointer_arg x kind held full) = rw kind refl

  fetched :
      (n : ℕ) (s : S) (t : V) (g : G) (vs : List V)
      → A.view s ≡ (t ∷ vs, g)
      → A.view (A.get_table (A.push (A.number (pos n)) s))
        ≡ (A.element t (A.number (pos n)) g ∷ t ∷ vs, g)
  fetched n s t g vs h =
      let pushed1 : A.view (A.push (A.number (pos n)) s) ≡ (A.number (pos n) ∷ t ∷ vs, g) =
        A.view-push (A.number (pos n)) s ∙ rw h refl in
      A.view-get_table (A.push (A.number (pos n)) s) (A.number (pos n)) t vs (ap (λ p. p.0) pushed1)
      ∙ rw pushed1 refl

  items_from-nil :
      (rounds n : ℕ) (s : S) (x : V)
      → at 1 (A.view (A.get_table (A.push (A.number (pos n)) s))).0 ≡ some x
      → A.type_of x ≡ nil_type
      → items_from (suc rounds) n s ≡ some (returned [], A.get_table (A.push (A.number (pos n)) s))
  unfolding items_from
  items_from-nil rounds n s x found kind = rw (A.value_at-view 1 _ x found, kind) refl

  items_from-item :
      (rounds n : ℕ) (s : S) (x : V) (v : Value)
      → at 1 (A.view (A.get_table (A.push (A.number (pos n)) s))).0 ≡ some x
      → Holds A k v x
      → items_from (suc rounds) n s
        ≡ join_item v
            (items_from rounds (n + 1) (A.pop 1 (A.get_table (A.push (A.number (pos n)) s))))
  unfolding items_from
  items_from-item rounds n s x v found held =
      let got = get-Holds A 1 (A.get_table (A.push (A.number (pos n)) s)) found held in
      rw (A.value_at-view 1 _ x found, not_nil held, ap (λ r. r.0) got, ap (λ r. r.1) got) refl

  items_from-Listed :
      (rounds : ℕ) {vs : List Value} {n : ℕ} (s : S) (t : V) (g : G) (rest : List V)
      → Listed t g n vs
      → A.view s ≡ (t ∷ rest, g)
      → length vs < rounds
      → (s' : S) × (x : V) × (items_from rounds n s ≡ some (returned vs, s'))
        × (A.view s' ≡ (x ∷ t ∷ rest, g))
        × (A.type_of x ≡ nil_type)
  items_from-Listed zero s t g rest l h enough = absurd (omega arith)
  items_from-Listed (suc rounds) s t g rest (ends {n} kind) h enough =
      let x = A.element t (A.number (pos n)) g in
      let view1 = fetched n s t g rest h in
      (
        A.get_table (A.push (A.number (pos n)) s),
        x,
        items_from-nil rounds n s x (rw view1 refl) kind,
        view1,
        kind,
      )
  items_from-Listed (suc rounds) s t g rest (item {n} {v} {vs} held more) h enough =
      let x = A.element t (A.number (pos n)) g in
      let s1 = A.get_table (A.push (A.number (pos n)) s) in
      let view1 = fetched n s t g rest h in
      let view2 : A.view (A.pop 1 s1) ≡ (t ∷ rest, g) = A.view-pop 1 s1 ∙ rw view1 refl in
      let (s', y, got, left, kind) =
        items_from-Listed rounds (A.pop 1 s1) t g rest more view2 (omega arith) in
      (
        s',
        y,
        items_from-item rounds n s x v (rw view1 refl) held ∙ ap (join_item v) got,
        left,
        kind,
      )

  table_read :
      (rounds i : ℕ) (s : S) (t : V)
      → A.view (A.push (A.value_at i s) s) ≡ (t ∷ (A.view s).0, (A.view s).1)
      → A.type_of t ≡ table_type
      → get_vector rounds i s ≡ items_from rounds 1 (A.push (A.value_at i s) s)
  unfolding get_vector
  table_read rounds i s t view1 kind =
      rw (A.value_at-view 1 (A.push (A.value_at i s) s) t (rw view1 refl), kind) refl

  -- Of a table with values of the type that is asked for, up to a nil, the vector is those values, in
  -- order; the loop needs one round more than there are values. The table, copied, and the nil stay on
  -- the stack.
  pub get_vector-Listed :
      {vs : List Value} (rounds i : ℕ) (s : S) (t : V)
      → at i (A.view s).0 ≡ some t
      → A.type_of t ≡ table_type
      → Listed t (A.view s).1 1 vs
      → length vs < rounds
      → (s' : S) × (x : V) × (get_vector rounds i s ≡ some (returned vs, s'))
        × (A.view s' ≡ (x ∷ t ∷ (A.view s).0, (A.view s).1))
        × (A.type_of x ≡ nil_type)
  get_vector-Listed rounds i s t found kind l enough =
      let v = A.value_at-view i s t found in
      let view1 : A.view (A.push (A.value_at i s) s) ≡ (t ∷ (A.view s).0, (A.view s).1) =
        A.view-push (A.value_at i s) s ∙ rw v refl in
      let (s', x, got, left, nil) =
        items_from-Listed rounds (A.push (A.value_at i s) s) t (A.view s).1 (A.view s).0 l view1
          enough in
      (s', x, table_read rounds i s t view1 kind ∙ got, left, nil)
