-- ===== src/Lua/Script/Chunks.antt =====
-- `Script::from` and `Script::exec` of src/LuaUtils.cpp: the chunks that a script is loaded from.
use hawck.Prelude.{
  ◌≡◌, refl, ap, ◌∙◌, Bool, true, false, List, [], ◌∷◌, ◌++◌, Option, none, some, Str,
  if◌then◌else◌,
}
use hawck.Lua.{
  LuaApi, results, failed, Source, file, chunk, table_type, at, Outcome, returned, thrown,
  logic_error,
}
use hawck.Lua.Script.{throw_top, load_and_run, from, exec, reformat}

module _ (A : LuaApi) where
  open A use {S, V, G}

  -- How a chunk ends: the value of its error, a message where it does not compile, and the memory.
  pub data Ends (c : Source) (g : G) : Option V → G → Type 0 where
    not_compiled : {v : V} → A.loaded c g ≡ (false, v) → Ends c g (some v) g
    fails :
        {f e : V} {g' : G}
        → A.loaded c g ≡ (true, f)
        → A.run f [] g ≡ failed e g'
        → Ends c g (some e) g'
    completes :
        {f : V} {rs : List V} {g' : G}
        → A.loaded c g ≡ (true, f)
        → A.run f [] g ≡ results rs g'
        → Ends c g none g'

  -- What C++ makes of it, by a function that rewrites messages.
  pub data Says (rewrite : Str → Str) : Option V → Outcome (Unit {0}) → Type 0 where
    nothing : Says rewrite none (returned tt)
    message : (err : Str) → Says rewrite (some (A.text err)) (thrown (rewrite err))
    no_message : {v : V} → A.type_of v ≡ table_type → Says rewrite (some v) logic_error

  abbrev pub kept : Option V → List V
  kept none = []
  kept (some v) = v ∷ []

  throw_top-Says :
      {v : V} {o : Outcome (Unit {0})} (rewrite : Str → Str) (s : S)
      → at 1 (A.view s).0 ≡ some v
      → Says rewrite (some v) o
      → throw_top A rewrite s ≡ (o, s)
  throw_top-Says rewrite s found (message err) = rw (A.to_text-text 1 s err found) refl
  throw_top-Says rewrite s found (no_message {v} kind) = rw (A.to_text-table 1 s v found kind) refl

  unloaded :
      (c : Source) (rewrite : Str → Str) (s : S)
      → (A.load c s).0 ≡ false
      → load_and_run A c rewrite s ≡ throw_top A rewrite (A.load c s).1
  unfolding load_and_run
  unloaded c rewrite s h = rw h refl

  ran :
      (c : Source) (rewrite : Str → Str) (s : S) (done : Bool)
      → (A.load c s).0 ≡ true
      → (A.pcall 0 0 0 (A.load c s).1).0 ≡ done
      → load_and_run A c rewrite s ≡ (
          if done
          then (returned tt, (A.pcall 0 0 0 (A.load c s).1).1)
          else throw_top A rewrite (A.pcall 0 0 0 (A.load c s).1).1)
  unfolding load_and_run
  ran c rewrite s done h e = rw (h, e) refl

  loaded-Ends :
      {v : Option V} {g0 g : G} {o : Outcome (Unit {0})} (c : Source) (rewrite : Str → Str) (s : S)
      → (A.view s).1 ≡ g0
      → Ends c g0 v g
      → Says rewrite v o
      → (s' : S) × (load_and_run A c rewrite s ≡ (o, s'))
        × (A.view s' ≡ (kept v ++ (A.view s).0, g))
  loaded-Ends c rewrite s at_g (not_compiled {v} compiled) says =
      let (refused, view1) = A.load-view c s in
      let view2 = view1 ∙ rw (at_g, compiled) refl in
      (
        (A.load c s).1,
        unloaded c rewrite s (refused ∙ rw (at_g, compiled) refl)
            ∙ throw_top-Says rewrite (A.load c s).1 (rw view2 refl) says,
        view2,
      )
  loaded-Ends c rewrite s at_g (fails {f} {e} {g'} compiled failing) says =
      let (compiles, view1) = A.load-view c s in
      let view2 = view1 ∙ rw (at_g, compiled) refl in
      let s1 = (A.load c s).1 in
      let failing1 : A.run f [] (A.view s1).1 ≡ failed e g' = rw (ap (λ p. p.1) view2) failing in
      let (lost, view3) =
        A.pcall-unhandled [] (A.view s).0 0 s1 f e g' (ap (λ p. p.0) view2) failing1 in
      (
        (A.pcall 0 0 0 s1).1,
        ran c rewrite s false (compiles ∙ rw (at_g, compiled) refl) lost
            ∙ throw_top-Says rewrite (A.pcall 0 0 0 s1).1 (rw view3 refl) says,
        view3,
      )
  loaded-Ends c rewrite s at_g (completes {f} {rs} {g'} compiled done) nothing =
      let (compiles, view1) = A.load-view c s in
      let view2 = view1 ∙ rw (at_g, compiled) refl in
      let s1 = (A.load c s).1 in
      let done1 : A.run f [] (A.view s1).1 ≡ results rs g' = rw (ap (λ p. p.1) view2) done in
      let (won, view3) =
        A.pcall-results [] (A.view s).0 rs 0 0 s1 f g' (ap (λ p. p.0) view2) done1 in
      ((A.pcall 0 0 0 s1).1, ran c rewrite s true (compiles ∙ rw (at_g, compiled) refl) won, view3)

  -- A chunk that completes leaves the stack as it was. One that does not compile or that fails throws a
  -- `LuaError` with its message, rewritten, or a `std::logic_error` if its error is a table, and the
  -- error stays on the stack.
  pub load_and_run-Ends :
      {v : Option V} {g : G} {o : Outcome (Unit {0})} (c : Source) (rewrite : Str → Str) (s : S)
      → Ends c (A.view s).1 v g
      → Says rewrite v o
      → (s' : S) × (load_and_run A c rewrite s ≡ (o, s'))
        × (A.view s' ≡ (kept v ++ (A.view s).0, g))
  load_and_run-Ends c rewrite s ends says = loaded-Ends c rewrite s refl ends says

  -- So it is of the files and of the texts that a script runs; `exec` puts its own name for the source
  -- before the line of a message.
  pub from_exec-Ends :
      {v : Option V} {g : G} {o o' : Outcome (Unit {0})} (parts : Str → Option (Str × Str))
      (src text : Str) (s : S)
      → Ends (file text) (A.view s).1 v g
      → Says (λ err. err) v o
      → Ends (chunk text) (A.view s).1 v g
      → Says (reformat A parts src) v o'
      → ((from A text s).0 ≡ o) × ((exec A parts src text s).0 ≡ o')
  unfolding from exec
  from_exec-Ends parts src text s fe fs ce cs =
      let (s1, got, left) = load_and_run-Ends (file text) (λ err. err) s fe fs in
      let (s2, got', left') = load_and_run-Ends (chunk text) (reformat A parts src) s ce cs in
      (ap (λ r. r.0) got, ap (λ r. r.0) got')
