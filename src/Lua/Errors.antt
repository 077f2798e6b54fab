-- ===== src/Lua/Errors.antt =====
-- `LuaError` and `goodLuaFilename` of src/LuaUtils.hpp: the texts that are made of file names.
use hawck.Prelude.{
  ℕ, ◌+◌, ◌-◌, ◌≡◌, ◌≤◌, refl, ap, Bool, true, false, not, ◌||◌, List, [], ◌∷◌, ◌++◌, Option, none,
  some, Str, codes, str_eq, ◌==◌, elem, take, length, length-append, ltb, arith, if◌then◌else◌,
  Bool-cases, inl, inr,
}
use hawck.Keyboard.Opening.{decimal}

-- The loop of `fmtError` over what is left of the text; `start` is what follows the last slash.
abbrev pub fmt_from : Str → Str → Str
fmt_from [] start = start
fmt_from (c ∷ rest) start =
    let next = fmt_from rest (if c == b'/' then rest else start) in
    if c == b'/' then next else if c == b':' then start else next

unfoldable pub fmt_error : Str → Str
fmt_error expl = fmt_from expl expl

-- What `fmtTraceback` reads of a `lua_Debug`; `name` may be null.
pub record Frame : Type 0 where
  pub is_c : Bool
  pub name : Option Str
  pub file : Str
  pub line : Str

-- One line of a Lua function.
abbrev pub frame_line : ℕ → Frame → Str
frame_line lv ar =
    codes "  ["
    ++ decimal 10 lv []
    ++ codes "]: func '"
    ++ (elim ar.name [ none ↦ codes "unknown" | some n ↦ n ])
    ++ codes "' @ "
    ++ ar.file
    ++ codes ":"
    ++ ar.line
    ++ 10 ∷ []

abbrev pub c_line : Str
c_line = codes "  [.]: ... C++ ..." ++ 10 ∷ []

-- The loop of `fmtTraceback`, with `lv` and `in_c`.
unfoldable pub trace_from : ℕ → Bool → List Frame → Str
trace_from lv in_c [] = []
trace_from lv in_c (ar ∷ trace) =
    let skipped = trace_from lv true trace in
    let printed = frame_line lv ar ++ trace_from (lv + 1) false trace in
    if ar.is_c then skipped else ((if in_c then c_line else []) ++ printed)

unfoldable pub fmt_traceback : List Frame → Str
fmt_traceback trace = trace_from 0 false trace

unfoldable pub fmt_report : Str → List Frame → Str
fmt_report expl trace = fmt_error expl ++ 10 ∷ [] ++ fmt_traceback trace

abbrev pub starts : Str → Str → Bool
starts s t = str_eq (take (length t) s) t

-- `std::string::find`: where the first occurrence starts.
abbrev pub found_at : ℕ → Str → Str → Option ℕ
found_at i [] t = none
found_at i (c ∷ s) t =
    let later = found_at (i + 1) s t in if starts (c ∷ s) t then some i else later

abbrev pub is_hidden : Str → Bool
is_hidden [] = false
is_hidden (c ∷ s) = c == b'.'

abbrev pub is_at : Option ℕ → ℕ → Bool
is_at none i = false
is_at (some j) i = j == i

-- `npos` is no position that a text of four bytes or more has.
unfoldable pub good_lua_filename : Str → Bool
good_lua_filename name = not (
    ltb (length name) 4
    || is_hidden name
    || not (is_at (found_at 0 name (codes ".lua")) (length name - 4)))

fmt_from-plain :
    (q rest start : Str)
    → elem b'/' q ≡ false
    → elem b':' q ≡ false
    → fmt_from (q ++ b':' ∷ rest) start ≡ start
fmt_from-plain [] rest start h g = refl
fmt_from-plain (c ∷ q) rest start h g = ground (arith, h, g, fmt_from-plain q rest start)

fmt_from-path :
    (p q rest start : Str)
    → elem b':' p ≡ false
    → elem b'/' q ≡ false
    → elem b':' q ≡ false
    → fmt_from (p ++ b'/' ∷ q ++ b':' ∷ rest) start ≡ q ++ b':' ∷ rest
fmt_from-path [] q rest start hp h g = fmt_from-plain q rest (q ++ b':' ∷ rest) h g
fmt_from-path (c ∷ p) q rest start hp h g =
    ground (
      arith,
      hp,
      fmt_from-path p q rest start,
      fmt_from-path p q rest (p ++ b'/' ∷ q ++ b':' ∷ rest),
    )

-- Of an error in a file of some directory, `what` is the message from the file's name on, if neither
-- the directory nor the name has a colon: whatever follows the first colon stays, slashes too.
pub fmt_error_lem :
    (p q rest : Str)
    → elem b':' p ≡ false
    → elem b'/' q ≡ false
    → elem b':' q ≡ false
    → fmt_error (p ++ b'/' ∷ q ++ b':' ∷ rest) ≡ q ++ b':' ∷ rest
unfolding fmt_error
fmt_error_lem p q rest hp h g = fmt_from-path p q rest (p ++ b'/' ∷ q ++ b':' ∷ rest) hp h g

-- Frames of C functions at the end of the trace are not shown.
pub trace_from-c_frames :
    (lv : ℕ) (in_c : Bool) (trace : List Frame) (ar : Frame)
    → ar.is_c ≡ true
    → trace_from lv in_c (trace ++ ar ∷ []) ≡ trace_from lv in_c trace
unfolding trace_from
trace_from-c_frames lv in_c [] ar h = rw (h, trace_from) refl
trace_from-c_frames lv in_c (f ∷ trace) ar h =
    rw (trace_from-c_frames lv true trace ar h, trace_from-c_frames (lv + 1) false trace ar h) refl

found_early :
    (i : ℕ) (b r : Str)
    → (j : ℕ) × (found_at i (b ++ codes ".lua" ++ r) (codes ".lua") ≡ some j) × (j ≤ i + length b)
found_early i [] r = (i, refl, omega arith)
found_early i (c ∷ b) r =
    let (j, found, early) = found_early (i + 1) b r in
    elim (Bool-cases (starts (c ∷ b ++ codes ".lua" ++ r) (codes ".lua"))) [
      | inl here ↦ (i, rw here refl, omega arith)
      | inr there ↦ (j, rw there found, omega arith)
    ]

found_stem :
    (i : ℕ) (b : Str)
    → elem b'.' b ≡ false
    → found_at i (b ++ codes ".lua") (codes ".lua") ≡ some (i + length b)
found_stem i [] h = ap some (omega arith)
found_stem i (c ∷ b) h = ground (arith, h, found_stem (i + 1) b)

-- A name with one dot, that of its ending `.lua`, is good if something stands before the dot.
pub good_lua_filename-stem :
    (c : ℕ) (b : Str) → elem b'.' (c ∷ b) ≡ false → good_lua_filename (c ∷ b ++ codes ".lua") ≡ true
unfolding good_lua_filename
good_lua_filename-stem c b h =
    rw (found_stem 0 (c ∷ b) h) (ground (arith, h, length-append (c ∷ b) (codes ".lua")))

-- A name with the ending `.lua` is refused if `.lua` stands in it before, though the comment says that
-- every name of the form `.+\.lua` matches.
pub good_lua_filename_twice :
    (b c : Str) → good_lua_filename (b ++ codes ".lua" ++ (c ++ codes ".lua")) ≡ false
unfolding good_lua_filename
good_lua_filename_twice b c =
    let (j, found, early) = found_early 0 b (c ++ codes ".lua") in
    rw found (
      ground (
        arith,
        early,
        length-append (b ++ codes ".lua") (c ++ codes ".lua"),
        length-append b (codes ".lua"),
        length-append c (codes ".lua"),
      ))
