-- ===== src/Xdg/Walk.antt =====
-- `mkPathIfNotExists` of src/XDG.cpp makes the path.
use hawck.Prelude.{
  ℕ, ◌+◌, ◌≡◌, refl, sym, ap, ◌∙◌, Bool, true, false, not, ◌||◌, ◌⊎◌, List, [], ◌∷◌, ◌++◌, Str,
  str_eq, ◌==◌, arith, if◌then◌else◌, Bool-cases, inl, inr,
}
use hawck.Effect.{ok, err, system_error, proceed, Result-cases}
use hawck.Permissions.{Stat}
use hawck.Watcher.{is_dir}
use hawck.Xdg.{
  Found, found, no_entry, stat_failed, is_found_dir, slash, tokens, extend, is_relative,
  cleaned_from, cleaned, Dirs, is_dir_at, mkdir_if_not_exists, make_parts, mk_path_if_not_exists,
}

-- A part of the path that is not a slash.
abbrev pub has_name : Str → Bool
has_name [] = false
has_name (c ∷ path) = not (c == slash) || has_name path

abbrev any_named : List Str → Bool
any_named [] = false
any_named (tok ∷ toks) = not (str_eq tok []) || any_named toks

pub has_name-append : (xs ys : Str) → has_name (xs ++ ys) ≡ (has_name xs || has_name ys)
has_name-append [] ys = refl
has_name-append (c ∷ xs) ys = ground (arith, has_name-append xs ys)

not_empty_append : (tok : Str) (c : ℕ) → str_eq (tok ++ c ∷ []) [] ≡ false
not_empty_append [] c = refl
not_empty_append (d ∷ tok) c = refl

tokens_named :
    (tok path : Str)
    → (not (str_eq tok []) || has_name path) ≡ true
    → any_named (tokens tok path) ≡ true
unfolding tokens
tokens_named tok [] h = ground (arith, h)
tokens_named tok (c ∷ path) h =
    let next = tokens_named [] path in
    let same = tokens_named (tok ++ c ∷ []) path in
    ground (arith, h, next, same, not_empty_append tok c)

extend_named :
    (rel : Bool) (out tok : Str)
    → (not (str_eq out []) || not (str_eq tok [])) ≡ true
    → str_eq (extend rel out tok) [] ≡ false
extend_named rel [] [] h = absurd (cc h)
extend_named true [] (c ∷ tok) h = refl
extend_named false [] (c ∷ tok) h = refl
extend_named true (d ∷ out) [] h = refl
extend_named false (d ∷ out) [] h = refl
extend_named true (d ∷ out) (c ∷ tok) h = refl
extend_named false (d ∷ out) (c ∷ tok) h = refl

cleaned_named :
    (rel : Bool) (out : Str) (toks : List Str)
    → (not (str_eq out []) || any_named toks) ≡ true
    → str_eq (cleaned_from rel out toks) [] ≡ false
unfolding cleaned_from
cleaned_named rel out [] h = ground (arith, h)
cleaned_named rel out (tok ∷ toks) h =
    elim (Bool-cases (not (str_eq out []) || not (str_eq tok []))) [
      | inl here ↦
          let next = extend_named rel out tok here in
          cleaned_named rel (extend rel out tok) toks (ground (arith, next))
      | inr empty ↦ cleaned_named rel (extend rel out tok) toks (ground (arith, h, empty))
    ]

has_name_not_empty : (path : Str) → has_name path ≡ true → str_eq path [] ≡ false
has_name_not_empty [] h = absurd (cc h)
has_name_not_empty (c ∷ path) h = refl

-- A path with a name in it is not cleaned to nothing.
pub has_name-cleaned : (path : Str) → has_name path ≡ true → str_eq (cleaned path) [] ≡ false
has_name-cleaned path h =
    cleaned_named (is_relative path) [] (tokens [] path) (tokens_named [] path h)

Found-cases : (f : Found) → ((st : Stat) × (f ≡ found st)) ⊎ ((f ≡ no_entry) ⊎ (f ≡ stat_failed))
Found-cases (found st) = inl (st, refl)
Found-cases no_entry = inr (inl refl)
Found-cases stat_failed = inr (inr refl)

module _ (F : Dirs) where
  open F use {W}

  -- What becomes of directories: those that are there stay, and the one that is asked for is there if
  -- nothing is thrown.
  mkdir_makes :
      (dir : Str) (um : ℕ) (w : W)
      → (((b : Bool) × ((mkdir_if_not_exists F dir um w).0 ≡ ok b)
            × (is_found_dir (F.stat dir (mkdir_if_not_exists F dir um w).1) ≡ true))
          ⊎ ((mkdir_if_not_exists F dir um w).0 ≡ err system_error))
  unfolding mkdir_if_not_exists
  mkdir_makes dir um w = elim (Found-cases (F.stat dir w)) [
    | inr (inr failed) ↦ inr (rw (failed, mkdir_if_not_exists) refl)
    | inr (inl missing) ↦ elim (Bool-cases (F.mkdir dir um w).0) [
      | inr refused ↦ inr (rw (missing, refused, mkdir_if_not_exists) refl)
      | inl done ↦ inl (
        true,
        rw (missing, done, mkdir_if_not_exists) refl,
        rw (missing, done, mkdir_if_not_exists) (F.stat-mkdir dir um w done),
      )
    ]
    | inl (st, at) ↦ elim (Bool-cases (is_dir st)) [
      | inr other ↦ inr (rw (at, other, mkdir_if_not_exists) refl)
      | inl directory ↦ inl (
        false,
        rw (at, directory, mkdir_if_not_exists) refl,
        rw (at, directory, mkdir_if_not_exists) (ap is_found_dir at ∙ directory),
      )
    ]
  ]

  mkdir_keeps :
      (dir q : Str) (um : ℕ) (w : W)
      → is_found_dir (F.stat q w) ≡ true
      → is_found_dir (F.stat q (mkdir_if_not_exists F dir um w).1) ≡ true
  unfolding mkdir_if_not_exists
  mkdir_keeps dir q um w h = elim (Found-cases (F.stat dir w)) [
    | inr (inr failed) ↦ rw (failed, mkdir_if_not_exists) h
    | inr (inl missing) ↦ elim (Bool-cases (F.mkdir dir um w).0) [
      | inr refused ↦ rw (missing, refused, mkdir_if_not_exists) (F.mkdir-keeps dir q um w h)
      | inl done ↦ rw (missing, done, mkdir_if_not_exists) (F.mkdir-keeps dir q um w h)
    ]
    | inl (st, at) ↦ elim (Bool-cases (is_dir st)) [
      | inr other ↦ rw (at, other, mkdir_if_not_exists) h
      | inl directory ↦ rw (at, directory, mkdir_if_not_exists) h
    ]
  ]

  parts_keep :
      (um : ℕ) (rel : Bool) (toks : List Str) (out : Str) (created : ℕ) (w : W) (q : Str)
      → is_found_dir (F.stat q w) ≡ true
      → is_found_dir (F.stat q (make_parts F um rel toks out created w).1) ≡ true
  unfolding make_parts
  parts_keep um rel [] out created w q h = h
  parts_keep um rel (tok ∷ toks) out created w q h =
      let out' = extend rel out tok in
      let w' = (mkdir_if_not_exists F out' um w).1 in
      let h' = mkdir_keeps out' q um w h in
      elim (Bool-cases (str_eq out' [])) [
        | inl nothing ↦ rw (nothing, make_parts) (parts_keep um rel toks out' created w q h)
        | inr part ↦ elim (Result-cases (mkdir_if_not_exists F out' um w).0) [
          | inr (e, failed) ↦ rw (part, failed, make_parts, proceed) h'
          | inl (b, done) ↦
              rw (part, done, make_parts, proceed)
                (parts_keep um rel toks out' (created + (if b then 1 else 0)) w' q h')
        ]
      ]

  parts_make :
      (um : ℕ) (rel : Bool) (toks : List Str) (out : Str) (created n : ℕ) (w : W)
      → (make_parts F um rel toks out created w).0 ≡ ok n
      → (str_eq out [] || is_found_dir (F.stat out w)) ≡ true
      → (str_eq (cleaned_from rel out toks) []
          || is_found_dir
              (F.stat (cleaned_from rel out toks) (make_parts F um rel toks out created w).1))
        ≡ true
  unfolding make_parts cleaned_from
  parts_make um rel [] out created n w h here = here
  parts_make um rel (tok ∷ toks) out created n w h here =
      let out' = extend rel out tok in
      let w' = (mkdir_if_not_exists F out' um w).1 in
      elim (Bool-cases (str_eq out' [])) [
        | inl nothing ↦
            let skip : make_parts F um rel (tok ∷ toks) out created w
                ≡ make_parts F um rel toks out' created w =
              rw (nothing, make_parts) refl in
            rw (skip) (
              parts_make um rel toks out' created n w (sym (ap (λ r. r.0) skip) ∙ h)
                (ground (arith, nothing)))
        | inr part ↦ elim (mkdir_makes out' um w) [
          | inr failed ↦
              let stops : (make_parts F um rel (tok ∷ toks) out created w).0 ≡ err system_error =
                rw (part, failed, make_parts, proceed) refl in
              absurd (cc (stops, h))
          | inl (b, done, there) ↦
              let created' = created + (if b then 1 else 0) in
              let next : make_parts F um rel (tok ∷ toks) out created w
                  ≡ make_parts F um rel toks out' created' w' =
                rw (part, done, make_parts, proceed) refl in
              rw (next) (
                parts_make um rel toks out' created' n w' (sym (ap (λ r. r.0) next) ∙ h)
                  (ground (arith, there)))
        ]
      ]

  pub mk_path_keeps :
      (path : Str) (um : ℕ) (w : W) (q : Str)
      → is_found_dir (F.stat q w) ≡ true
      → is_found_dir (F.stat q (mk_path_if_not_exists F path um w).1) ≡ true
  unfolding mk_path_if_not_exists
  mk_path_keeps path um w q h = elim (Bool-cases (str_eq path [])) [
    | inl nothing ↦ rw (nothing, mk_path_if_not_exists) h
    | inr some_path ↦
        rw (some_path, mk_path_if_not_exists)
          (parts_keep um (is_relative path) (tokens [] path) [] 0 w q h)
  ]

  -- If `mkPathIfNotExists` returns, for a path with a name in it, then the path is a directory, and
  -- whatever was a directory still is one.
  pub mk_path_makes :
      (path q : Str) (um n : ℕ) (w : W)
      → has_name path ≡ true
      → (mk_path_if_not_exists F path um w).0 ≡ ok n
      → (is_dir_at F path (mk_path_if_not_exists F path um w).1 ≡ true)
        × ((not (is_dir_at F q w) || is_dir_at F q (mk_path_if_not_exists F path um w).1) ≡ true)
  unfolding mk_path_if_not_exists is_dir_at
  mk_path_makes path q um n w named h =
      let rel = is_relative path in
      let toks = tokens [] path in
      let real = has_name-cleaned path named in
      let some_path : str_eq path [] ≡ false = has_name_not_empty path named in
      let walk : mk_path_if_not_exists F path um w ≡ make_parts F um rel toks [] 0 w =
        rw (some_path, mk_path_if_not_exists) refl in
      let w' = (make_parts F um rel toks [] 0 w).1 in
      let made = parts_make um rel toks [] 0 n w (sym (ap (λ r. r.0) walk) ∙ h) refl in
      let there : is_found_dir (F.stat (cleaned path) w') ≡ true = ground (arith, made, real) in
      (rw (walk) (F.stat-cleaned path w' real ∙ there), ground (arith, mk_path_keeps path um w q))
