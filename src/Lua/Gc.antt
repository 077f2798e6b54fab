-- ===== src/Lua/Gc.antt =====
-- `GC` of src/LuaUtils.hpp and `hwk_lua_object_destructor_cb` of src/LuaUtils.cpp: objects whose
-- references C++ and Lua count together.
use hawck.Prelude.{ℕ, ◌+◌, ◌-◌, ◌≡◌, ◌<◌, refl, leb, ◌==◌, arith, if◌then◌else◌}

-- The counter, and how often the object was deleted and the counter freed.
pub record Shared : Type 0 where
  pub rc : ℕ
  pub deleted : ℕ
  pub freed : ℕ

-- The constructor on an interface.
abbrev pub make : Shared
make = record { rc = 1; deleted = 0; freed = 0 }

-- The copy constructor, and `luaPush`, whose value on the stack is a reference of Lua.
unfoldable pub copy : Shared → Shared
copy o = record o { rc = o.rc + 1 }

unfoldable pub lua_push : Shared → Shared
lua_push o = record o { rc = o.rc + 1 }

-- `--*rc <= 0`, and what follows if it is so.
abbrev pub release : Shared → Shared
release o =
    if leb o.rc 1
    then record o { rc = o.rc - 1; deleted = o.deleted + 1; freed = o.freed + 1 }
    else record o { rc = o.rc - 1 }

-- `~GC`, and the `__gc` of a value that Lua collects.
unfoldable pub destruct : Shared → Shared
destruct o = release o

unfoldable pub destructor_cb : Shared → Shared
destructor_cb o = release o

-- The object, with the handles of C++ and the values of Lua that refer to it. A handle is needed to copy
-- and to push; Lua collects a value once.
pub record World : Type 0 where
  pub shared : Shared
  pub handles : ℕ
  pub values : ℕ

abbrev pub made : World
made = record { shared = make; handles = 1; values = 0 }

pub data Step : World → World → Type 0 where
  copies :
      (w : World)
      → 0 < w.handles
      → Step w (record w { shared = copy w.shared; handles = w.handles + 1 })
  pushes :
      (w : World)
      → 0 < w.handles
      → Step w (record w { shared = lua_push w.shared; values = w.values + 1 })
  destructs :
      (w : World)
      → 0 < w.handles
      → Step w (record w { shared = destruct w.shared; handles = w.handles - 1 })
  collects :
      (w : World)
      → 0 < w.values
      → Step w (record w { shared = destructor_cb w.shared; values = w.values - 1 })

pub data Reach : World → Type 0 where
  start : Reach made
  next : {w v : World} → Reach w → Step w v → Reach v

-- The counter is the number of references, and the object and its counter are deleted, once, when there
-- are none left.
pub record IsCounted (w : World) : Type 0 where
  pub counts : w.shared.rc ≡ w.handles + w.values
  pub once : w.shared.deleted ≡ (if w.handles + w.values == 0 then 1 else 0)
  pub both : w.shared.freed ≡ w.shared.deleted

Step-IsCounted : {w v : World} → Step w v → IsCounted w → IsCounted v
unfolding copy lua_push destruct destructor_cb
Step-IsCounted (copies w h) c = ground arith
Step-IsCounted (pushes w h) c = ground arith
Step-IsCounted (destructs w h) c = ground arith
Step-IsCounted (collects w h) c = ground arith

-- Whatever sequence of copies, pushes, destructions and collections follows the making of a `GC`, in
-- any order: the counter is the number of handles in C++ and values in Lua, and the object is deleted,
-- and its counter freed, exactly once if none of them is left, and never before.
pub Reach-IsCounted : {w : World} → Reach w → IsCounted w
Reach-IsCounted start = record { counts = refl; once = refl; both = refl }
Reach-IsCounted (next r st) = Step-IsCounted st (Reach-IsCounted r)
