-- ===== src/Permissions.antt =====
-- src/Permissions.cpp, src/Permissions.hpp: permission strings, and the check of a file against one.
pub mod Modes
mod Examples
use hawck.Prelude.{
  ℕ, zero, suc, ◌+◌, ◌*◌, ◌-◌, ◌/◌, ◌%◌, ◌^◌, Bool, true, false, not, ◌&&◌, ◌||◌, List, [], ◌∷◌,
  ◌++◌, Option, none, some, Str, codes, str_eq, ◌==◌, length, if◌then◌else◌,
}

-- `num & mask` for a power of two, as a test.
abbrev pub is_set : ℕ → ℕ → Bool
is_set num mask = num / mask % 2 == 1

-- `mode |= mask` for a power of two.
abbrev pub set_bit : ℕ → ℕ → ℕ
set_bit mode mask = if is_set mode mask then mode else mode + mask

-- `a & b` on the lowest `width` bits.
unfoldable pub bit_and : ℕ → ℕ → ℕ → ℕ
bit_and zero a b = 0
bit_and (suc width) a b = a % 2 * (b % 2) + 2 * bit_and width (a / 2) (b / 2)

-- The values of `mask` in `for (unsigned mask = S_IRUSR; mask >= S_IXOTH; mask >>= 1)`.
abbrev pub mode_masks : List ℕ
mode_masks = 256 ∷ 128 ∷ 64 ∷ 32 ∷ 16 ∷ 8 ∷ 4 ∷ 2 ∷ 1 ∷ []

-- `S_IRWXU | S_IRWXG | S_IRWXO`.
abbrev pub all_modes : ℕ
all_modes = 0o777

abbrev pub dash : ℕ
dash = 45

abbrev pub dot : ℕ
dot = 46

-- `bitstr[i % 3]`.
abbrev pub bit_char : ℕ → ℕ
bit_char i = if i % 3 == 0 then 114 else if i % 3 == 1 then 119 else 120

unfoldable pub fmt_bits : List ℕ → ℕ → ℕ → Str
fmt_bits [] i num = []
fmt_bits (mask ∷ masks) i num =
    (if is_set num mask then bit_char i else dash) ∷ fmt_bits masks (i + 1) num

unfoldable pub fmt_permissions : ℕ → Str
unfolding fmt_bits
fmt_permissions num = fmt_bits mode_masks 0 num

-- The loop over the nine characters, on `mode` and `mode_mask`.
unfoldable pub parse_bits : List ℕ → Str → ℕ × ℕ → ℕ × ℕ
parse_bits [] perm acc = acc
parse_bits (mask ∷ masks) [] acc = acc
parse_bits (mask ∷ masks) (c ∷ perm) (mode, mode_mask) =
    let set = if c == dash then mode else set_bit mode mask in
    let read = parse_bits masks perm (set, set_bit mode_mask mask) in
    let passed = parse_bits masks perm (mode, mode_mask) in if c == dot then passed else read

pub record Collection : Type 0 where
  pub mode : ℕ
  pub mode_mask : ℕ
  pub user_name : Str
  pub uid : ℕ
  pub group_name : Str
  pub gid : ℕ
  pub file_type_char : Str

-- The fields of `struct stat` that the code reads.
pub record Stat : Type 0 where
  pub st_mode : ℕ
  pub st_uid : ℕ
  pub st_gid : ℕ

-- What the groups of the regular expression match.
pub record Match : Type 0 where
  pub file_type : Str
  pub perm : Str
  pub user : Str
  pub group : Str

-- What the code calls: the system's databases and `stat`, and the search with its regular expression;
-- no result is an exception, or no match.
pub record System : Type 0 where
  pub getuid : ℕ
  pub user_id : Str → Option ℕ
  pub user_named : ℕ → Option Str
  pub group_id : Str → Option ℕ
  pub group_named : ℕ → Option Str
  pub stat : Str → Option Stat
  pub search : Str → Option Match

unfoldable pub file_type_of : ℕ → Str
file_type_of st_mode =
    let kind = st_mode / 0o10000 % 0o20 in
    if kind == 4
    then codes "d"
    else if kind == 1
    then codes "p"
    else if kind == 6
    then codes "b"
    else if kind == 2
    then codes "c"
    else if kind == 10
    then codes "l"
    else if kind == 12
    then codes "s"
    else if kind == 8
    then codes "f"
    else codes "?"

-- `other == expect`, for the two operands of `operator==`.
unfoldable pub collection_eq : Collection → Collection → Bool
collection_eq c other =
    let mmask = bit_and 32 c.mode_mask other.mode_mask in
    bit_and 32 other.mode mmask == bit_and 32 c.mode mmask
    && str_eq other.file_type_char c.file_type_char
    && (other.uid == c.uid
        || (str_eq c.user_name (codes "*") || str_eq other.user_name (codes "*")))
    && (other.gid == c.gid
        || (str_eq c.group_name (codes "*") || str_eq other.group_name (codes "*")))

-- `-1`, as an id.
abbrev pub any_id : ℕ
any_id = 2 ^ 32 - 1

module _ (sys : System) where
  -- `Collection(const struct stat *)`.
  unfoldable pub describe : Stat → Option Collection
  unfolding file_type_of
  describe st = elim (sys.user_named st.st_uid) [
    | none ↦ none
    | some user ↦ elim (sys.group_named st.st_gid) [
      | none ↦ none
      | some group ↦ some (record {
        mode = st.st_mode % 0o1000;
        mode_mask = all_modes;
        user_name = user;
        uid = st.st_uid;
        group_name = group;
        gid = st.st_gid;
        file_type_char = file_type_of st.st_mode;
      })
    ]
  ]

  -- The name and the id of the user, and of the group, of a permission string.
  abbrev pub find_user : Str → Option (Str × ℕ)
  find_user user =
      if str_eq user (codes "*")
      then some (user, any_id)
      else if str_eq user (codes "~")
      then elim (sys.user_named sys.getuid) [ none ↦ none | some name ↦ some (name, sys.getuid) ]
      else elim (sys.user_id user) [ none ↦ none | some uid ↦ some (user, uid) ]

  abbrev pub find_group : Str → Option (Str × ℕ)
  find_group group =
      if str_eq group (codes "*")
      then some (group, any_id)
      else elim (sys.group_id group) [ none ↦ none | some gid ↦ some (group, gid) ]

  -- `Collection(const std::string &)`.
  unfoldable pub parse_permissions : Str → Option Collection
  unfolding parse_bits
  parse_permissions perm = elim (sys.search perm) [
    | none ↦ none
    | some found ↦ elim (find_user found.user) [
      | none ↦ none
      | some (user, uid) ↦ elim (find_group found.group) [
        | none ↦ none
        | some (group, gid) ↦
            let (mode, mode_mask) = parse_bits mode_masks found.perm (0, 0) in
            if length found.perm == 9
            then some (record {
              mode = mode;
              mode_mask = mode_mask;
              user_name = user;
              uid = uid;
              group_name = group;
              gid = gid;
              file_type_char = found.file_type;
            })
            else none
      ]
    ]
  ]

  unfoldable pub check_file : Str → Str → Option Bool
  check_file path mode = elim (parse_permissions mode) [
    | none ↦ none
    | some expect ↦ elim (sys.stat path) [
      | none ↦ none
      | some st ↦ elim (describe st) [ none ↦ none | some have ↦ some (collection_eq expect have) ]
    ]
  ]
