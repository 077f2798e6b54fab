-- ===== src/Lua/Timeout.antt =====
-- `TimeoutHook` and `lua_timeout_hook` of src/LuaUtils.hpp and src/LuaUtils.cpp.
use hawck.Prelude.{
  ℕ, ◌+◌, ◌≡◌, refl, ◌≢◌, Bool, false, ◌||◌, List, [], ◌∷◌, Option, none, some, ltb, ◌==◌,
  if◌then◌else◌, Bool-cases, inl, inr,
}
use hawck.Prelude.Maps.{nat_key, lookup, insert, remove, lookup-insert_here, lookup-insert_other}

-- The hook that a Lua state has: `lua_timeout_hook`, each NUM_INST instructions, or the one that raises
-- the error, each instruction.
pub data Hook : Type 0 where
  unhooked timeout_hook error_hook : Hook

-- `script_end_times`, by the address of a Lua state, and the hook of each.
pub record Hooks : Type 0 where
  pub script_end_times : List (ℕ × ℕ)
  pub hook : List (ℕ × Hook)

unfoldable pub hook_of : ℕ → Hooks → Hook
hook_of l h = elim (lookup nat_key l h.hook) [ none ↦ unhooked | some k ↦ k ]

-- `lua_sethook`.
abbrev pub set_hook : ℕ → Hook → Hooks → Hooks
set_hook l k h = record h { hook = insert nat_key l k h.hook }

-- The constructor, in the millisecond `now`, and the destructor.
unfoldable pub begin : ℕ → ℕ → ℕ → Hooks → Hooks
begin l now time h =
    let h' = set_hook l timeout_hook h in
    record h' { script_end_times = insert nat_key l (now + time) h'.script_end_times }

unfoldable pub end : ℕ → Hooks → Hooks
end l h = set_hook l unhooked (record h { script_end_times = remove nat_key l h.script_end_times })

-- `script_end_times[l]` makes an entry of 0 where there is none.
abbrev pub end_time : Option ℕ → ℕ
end_time none = 0
end_time (some t) = t

unfoldable pub lua_timeout_hook : ℕ → ℕ → Hooks → Hooks
lua_timeout_hook l now h =
    let found = end_time (lookup nat_key l h.script_end_times) in
    let h' = record h { script_end_times = insert nat_key l found h.script_end_times } in
    if ltb found now then set_hook l error_hook h' else h'

-- Lua runs the hook that the state has at each of these times.
unfoldable pub run_hooks : ℕ → List ℕ → Hooks → Hooks
run_hooks l [] h = h
run_hooks l (now ∷ times) h =
    let later = run_hooks l times (lua_timeout_hook l now h) in
    elim (hook_of l h) [ unhooked ↦ h | error_hook ↦ h | timeout_hook ↦ later ]

-- Whether one of the times is after a time.
abbrev pub any_after : ℕ → List ℕ → Bool
any_after t [] = false
any_after t (now ∷ times) = ltb t now || any_after t times

hook_of-set_hook : (l : ℕ) (k : Hook) (h : Hooks) → hook_of l (set_hook l k h) ≡ k
unfolding hook_of
hook_of-set_hook l k h = rw (lookup-insert_here nat_key l k h.hook, hook_of) refl

run_hooks_still :
    (l : ℕ) (k : Hook) (times : List ℕ) (h : Hooks)
    → hook_of l h ≡ k
    → k ≢ timeout_hook
    → hook_of l (run_hooks l times h) ≡ k
unfolding run_hooks
run_hooks_still l k [] h is still = is
run_hooks_still l unhooked (now ∷ times) h is still = rw (is, run_hooks) is
run_hooks_still l timeout_hook (now ∷ times) h is still = absurd (still refl)
run_hooks_still l error_hook (now ∷ times) h is still = rw (is, run_hooks) is

run_hooks-any :
    (l t : ℕ) (times : List ℕ) (h : Hooks)
    → hook_of l h ≡ timeout_hook
    → lookup nat_key l h.script_end_times ≡ some t
    → hook_of l (run_hooks l times h) ≡ (if any_after t times then error_hook else timeout_hook)
unfolding run_hooks lua_timeout_hook hook_of
run_hooks-any l t [] h is ends = is
run_hooks-any l t (now ∷ times) h is ends =
    let kept = record h { script_end_times = insert nat_key l t h.script_end_times } in
    elim (Bool-cases (ltb t now)) [
      | inl late ↦
          rw (is, ends, late, run_hooks)
            (run_hooks_still l error_hook times (set_hook l error_hook kept)
              (hook_of-set_hook l error_hook kept) (λ e. cc e))
      | inr early ↦
          rw (is, ends, early, run_hooks)
            (run_hooks-any l t times kept is (lookup-insert_here nat_key l t h.script_end_times))
    ]

-- Under a `TimeoutHook` made in the millisecond `now` with the limit `time`, a Lua state gets the hook
-- that raises the error exactly if the hook runs, at one of the times at which Lua runs it, after
-- `now + time`, whatever other states have hooks.
pub run_hooks-begin :
    (l now time : ℕ) (times : List ℕ) (h : Hooks)
    → hook_of l (run_hooks l times (begin l now time h))
      ≡ (if any_after (now + time) times then error_hook else timeout_hook)
unfolding begin hook_of
run_hooks-begin l now time times h =
    run_hooks-any l (now + time) times (begin l now time h) (hook_of-set_hook l timeout_hook h)
      (lookup-insert_here nat_key l (now + time) h.script_end_times)

-- A second `TimeoutHook` on the same state takes the limit of the first with it when it ends: however
-- long the first goes on, no error is raised. The hooks of other states stay.
pub run_hooks-end :
    (l now time m : ℕ) (times : List ℕ) (h : Hooks)
    → (l == m) ≡ false
    → (hook_of l (run_hooks l times (end l (begin l now time h))) ≡ unhooked)
      × (hook_of m (end l (begin l now time h)) ≡ hook_of m h)
unfolding begin end hook_of
run_hooks-end l now time m times h apart = (
  run_hooks_still l unhooked times (end l (begin l now time h))
      (hook_of-set_hook l unhooked (record h {
        hook = insert nat_key l timeout_hook h.hook;
        script_end_times = remove nat_key l (insert nat_key l (now + time) h.script_end_times);
      }))
      (λ e. cc e),
  rw
      (
        lookup-insert_other nat_key m l unhooked (insert nat_key l timeout_hook h.hook) apart,
        lookup-insert_other nat_key m l timeout_hook h.hook apart,
        hook_of,
      )
      refl,
)
