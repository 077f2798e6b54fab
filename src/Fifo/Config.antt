-- ===== src/Fifo/Config.antt =====
-- src/LuaConfig.cpp, src/LuaConfig.hpp: messages that set options.
use hawck.Prelude.{◌≡◌, Bool, List, [], ◌∷◌, Option, none, some, Str, if◌then◌else◌}
use hawck.Prelude.Maps.{lookup, insert, str_key}

-- The Lua state: each call has no result if it throws `LuaError`. `config` is the value of an option,
-- which asking for it does not change.
pub record Lua (V : Type 0) : Type 1 where
  pub L : Type 0
  pub exec : Str → L → Option Str × L
  pub get_changed : L → Option (List Str) × L
  pub dump_config : L → Bool × L
  pub get_configs : Str → L → Option V × L
  pub config : Str → L → Option V
  pub get_configs-config : (name : Str) (l : L) → (get_configs name l).0 ≡ config name l
  pub config-get_configs :
      (name other : Str) (l : L) → config name (get_configs other l).1 ≡ config name l

module _ {V : Type 0} (E : Lua V) (C : Type 0) where
  pub record LuaConfig : Type 0 where
    pub lua : E.L
    pub option_setters : List (Str × (V → C → C))
    pub client : C

  -- `addOption` with a callback.
  abbrev pub add_option : Str → (V → C → C) → LuaConfig → LuaConfig
  add_option name callback k = record k {
    option_setters = insert str_key name callback k.option_setters;
  }

  -- The function that `addOption` stores: a `LuaError` is caught in it.
  abbrev pub set_option : Str → (V → C → C) → LuaConfig → LuaConfig
  set_option name callback k =
      let (got, lua) = E.get_configs name k.lua in
      elim got [
        | none ↦ record k { lua = lua }
        | some v ↦ record k { lua = lua; client = callback v k.client }
      ]

  -- The loop of `handleMessage` over the names.
  unfoldable pub set_changed : List Str → LuaConfig → LuaConfig
  set_changed [] k = k
  set_changed (name ∷ names) k = elim (lookup str_key name k.option_setters) [
    | none ↦ set_changed names k
    | some callback ↦ set_changed names (set_option name callback k)
  ]

  unfoldable pub handle_message : Str → LuaConfig → Str × LuaConfig
  handle_message msg k =
      let (json, l) = E.exec msg k.lua in
      let (changes, l') = E.get_changed l in
      let (dumped, l'') = E.dump_config l' in
      elim json [
        | none ↦ ([], record k { lua = l })
        | some json ↦ elim changes [
          | none ↦ ([], record k { lua = l' })
          | some names ↦
              if dumped
              then (json, set_changed names (record k { lua = l'' }))
              else ([], record k { lua = l'' })
        ]
      ]
