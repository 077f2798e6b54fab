-- ===== src/Fifo/Options.antt =====
-- What a message changes in the options of src/LuaConfig.cpp.
use hawck.Prelude.{
  ◌≡◌, refl, sym, ap, ap₂, ◌∙◌, Bool, true, false, ◌&&◌, ◌||◌, List, [], ◌∷◌, Option, none, some,
  Str, str_eq, str_eq_iff, arith, if◌then◌else◌, Bool-cases, Option-cases, inl, inr,
}
use hawck.Prelude.Maps.{lookup, insert, str_key, lookup-insert}
use hawck.Fifo.Config.{Lua, LuaConfig, add_option, set_option, set_changed, handle_message}

-- Whether a name is in a list.
abbrev pub is_in : Str → List Str → Bool
is_in name [] = false
is_in name (x ∷ names) = str_eq x name || is_in name names

module _ {V : Type 0} (E : Lua V) where
  -- The options of a program, as the values of its atomics.
  abbrev pub Values : Type 0
  Values = List (Str × V)

  -- `addOption` with an atomic: the callback assigns it.
  abbrev pub assign : Str → V → Values → Values
  assign name v values = insert str_key name v values

  -- `addOption` of each name.
  abbrev pub add_options : List Str → LuaConfig E Values → LuaConfig E Values
  add_options [] k = k
  add_options (name ∷ names) k = add_option E Values name (assign name) (add_options names k)

  -- The setters of a program are those of the names.
  abbrev pub SettersOf : List Str → LuaConfig E Values → Type 0
  SettersOf names k =
      (name : Str)
      → lookup str_key name k.option_setters
        ≡ (if is_in name names then some (assign name) else none)

  add_options-SettersOf :
      (names : List Str) (k : LuaConfig E Values)
      → ((name : Str) → lookup str_key name k.option_setters ≡ none)
      → SettersOf names (add_options names k)
  add_options-SettersOf [] k empty name = empty name
  add_options-SettersOf (x ∷ names) k empty name =
      lookup-insert str_key name x (assign x) (add_options names k).option_setters
      ∙ elim (Bool-cases (str_eq x name)) [
        | inr other ↦ rw (other) (add_options-SettersOf names k empty name)
        | inl same ↦ rw (same) (ap (λ n. some (assign n)) ((str_eq_iff x name).0 same))
      ]

  -- What becomes of the value of an option.
  abbrev pub updated : Bool → Option V → Option V → Option V
  updated false new old = old
  updated true none old = old
  updated true (some v) old = some v

  updated_twice :
      (a b : Bool) (new old : Option V)
      → updated b new (updated a new old) ≡ updated (a || b) new old
  updated_twice true true none old = refl
  updated_twice true true (some v) old = refl
  updated_twice true false new old = refl
  updated_twice false b new old = refl

  -- One call of the function that `addOption` stores for an atomic.
  module _ (x : Str) (k : LuaConfig E Values) where
    abbrev after : LuaConfig E Values
    after = set_option E Values x (assign x) k

    after_setters : after.option_setters ≡ k.option_setters
    after_setters = elim (Option-cases (E.get_configs x k.lua).0) [
      | inl failed ↦ rw (failed, after, set_option) refl
      | inr (v, got) ↦ rw (got, after, set_option) refl
    ]

    after_config : (name : Str) → E.config name after.lua ≡ E.config name k.lua
    after_config name = elim (Option-cases (E.get_configs x k.lua).0) [
      | inl failed ↦ rw (failed, after, set_option) (E.config-get_configs name x k.lua)
      | inr (v, got) ↦ rw (got, after, set_option) (E.config-get_configs name x k.lua)
    ]

    after_value :
        (name : Str)
        → lookup str_key name after.client
          ≡ updated (str_eq x name) (E.config name k.lua) (lookup str_key name k.client)
    after_value name = elim (Bool-cases (str_eq x name)) [
      | inr other ↦ elim (Option-cases (E.get_configs x k.lua).0) [
        | inl failed ↦ rw (failed, other, after, set_option) refl
        | inr (v, got) ↦
            rw (got, other, after, set_option)
              (lookup-insert str_key name x v k.client
                ∙ ap (λ b. if b then some v else lookup str_key name k.client) other)
      ]
      | inl same ↦
          let one = (str_eq_iff x name).0 same in
          let asked : E.config name k.lua ≡ (E.get_configs x k.lua).0 =
            ap (λ n. E.config n k.lua) (sym one) ∙ sym (E.get_configs-config x k.lua) in
          elim (Option-cases (E.get_configs x k.lua).0) [
            | inl failed ↦ rw (asked, failed, same, after, set_option) refl
            | inr (v, got) ↦
                rw (asked, got, same, after, set_option)
                  (lookup-insert str_key name x v k.client
                    ∙ ap (λ b. if b then some v else lookup str_key name k.client) same)
          ]
    ]

  set_changed_values :
      (names added : List Str) (k : LuaConfig E Values) (name : Str)
      → SettersOf added k
      → lookup str_key name (set_changed E Values names k).client
        ≡ updated
            (is_in name names && is_in name added)
            (E.config name k.lua)
            (lookup str_key name k.client)
  unfolding set_changed
  set_changed_values [] added k name s = refl
  set_changed_values (x ∷ names) added k name s =
      let old = lookup str_key name k.client in
      let new = E.config name k.lua in
      let both = is_in name names && is_in name added in
      let move : str_eq x name ≡ true → is_in x added ≡ is_in name added =
        λ e. ap (λ n. is_in n added) ((str_eq_iff x name).0 e) in
      elim (Bool-cases (is_in x added)) [
        | inr unknown ↦
            let skip : lookup str_key x k.option_setters ≡ none =
              s x ∙ ap (λ b. if b then some (assign x) else none) unknown in
            let bits : both ≡ ((str_eq x name || is_in name names) && is_in name added) =
              ground (arith, unknown, move) in
            rw (skip, set_changed)
              (set_changed_values names added k name s ∙ ap (λ b. updated b new old) bits)
        | inl known ↦
            let set : lookup str_key x k.option_setters ≡ some (assign x) =
              s x ∙ ap (λ b. if b then some (assign x) else none) known in
            let bits : (str_eq x name || both)
                ≡ ((str_eq x name || is_in name names) && is_in name added) =
              ground (arith, known, move) in
            let s' : SettersOf added (after x k) =
              λ n. ap (lookup str_key n) (after_setters x k) ∙ s n in
            rw (set, set_changed)
              (set_changed_values names added (after x k) name s'
                ∙ ap₂ (updated both) (after_config x k name) (after_value x k name)
                ∙ updated_twice (str_eq x name) both new old
                ∙ ap (λ b. updated b new old) bits)
      ]

  -- A program adds options for atomics, and then handles a message that Lua runs without an error up
  -- to the list of changed names: the answer is Lua's, each option that was added and whose name is in
  -- the list has the value that Lua gives for it, if it gives one, and every other value is what it was.
  pub handle_message_sets :
      (added names : List Str) (msg json : Str) (k : LuaConfig E Values) (name : Str)
      → ((n : Str) → lookup str_key n k.option_setters ≡ none)
      → (E.exec msg (add_options added k).lua).0 ≡ some json
      → (E.get_changed (E.exec msg (add_options added k).lua).1).0 ≡ some names
      → (E.dump_config (E.get_changed (E.exec msg (add_options added k).lua).1).1).0 ≡ true
      → ((handle_message E Values msg (add_options added k)).0 ≡ json)
        × (lookup str_key name (handle_message E Values msg (add_options added k)).1.client
            ≡ updated
                (is_in name names && is_in name added)
                (E.config name
                  (E.dump_config (E.get_changed (E.exec msg (add_options added k).lua).1).1).1)
                (lookup str_key name (add_options added k).client))
  unfolding handle_message
  handle_message_sets added names msg json k name empty ran changed dumped =
      let start = add_options added k in
      let l = (E.dump_config (E.get_changed (E.exec msg start.lua).1).1).1 in
      rw (ran, changed, dumped, handle_message)
        (
          refl,
          set_changed_values names added (record start { lua = l }) name
              (add_options-SettersOf added k empty),
        )
