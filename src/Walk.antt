-- ===== src/Walk.antt =====
-- The walk over two or three sorted lists of directory entries that common/merge-new.c and
-- common/diff-simple.c share, statement for statement: find the largest of the first names, and
-- take the entries with that name. An array of `n` pointers is a triple; with `n == 2` its third
-- place is empty, as the loops up to `n` leave it out.
pub mod Names
pub mod Rounds
pub mod Depth
use seafile_server.Base.{
  ℕ, ◌+◌, Bool, true, false, Option, none, some, List, [], ◌∷◌, CString, ◌++◌, codes, str_eq,
  str_lt, if◌then◌else◌, length,
}
use seafile_server.Fs.{Dirent, SeafDir, is_reg, is_dir}

-- An `int` result is read through `< 0` alone. `out_of_fuel` is no result of the C code: it says
-- that the model's bound on the depth of directories was too small.
pub data Rc : Type 0 where
  success failure out_of_fuel : Rc

pub record Three {ℓ} (A : Type ℓ) : Type ℓ where
  pub s0 : A
  pub s1 : A
  pub s2 : A

abbrev pub three {ℓ} : {A : Type ℓ} → A → A → A → Three A
three a b c = record { s0 = a; s1 = b; s2 = c }

abbrev pub map3 {ℓ κ} : {A : Type ℓ} {B : Type κ} → (A → B) → Three A → Three B
map3 f t = record { s0 = f t.s0; s1 = f t.s1; s2 = f t.s2 }

-- `dents`
abbrev pub Dents : Type 0
Dents = Three (Option Dirent)

-- `ptrs`
abbrev pub Ptrs : Type 0
Ptrs = Three (List Dirent)

-- `ptrs[i] = trees[i]->entries`
abbrev pub entries_of : Option SeafDir → List Dirent
entries_of none = []
entries_of (some t) = t.entries

-- One round of the loop that looks for `first_name`.
unfoldable pub larger_name : Option CString → List Dirent → Option CString
larger_name first [] = first
larger_name none (d ∷ ds) = some d.name
larger_name (some m) (d ∷ ds) = some (if str_lt m d.name then d.name else m)

-- `none` when every list is used up, which is `done`.
unfoldable pub first_name : Ptrs → Option CString
unfolding larger_name
first_name p = larger_name (larger_name (larger_name none p.s0) p.s1) p.s2

-- `dents[i]` for the name `m`.
unfoldable pub dent_at : CString → List Dirent → Option Dirent
dent_at m [] = none
dent_at m (d ∷ ds) = if str_eq m d.name then some d else none

-- `ptrs[i]` after the round for the name `m`.
unfoldable pub rest_at : CString → List Dirent → List Dirent
rest_at m [] = []
rest_at m (d ∷ ds) = if str_eq m d.name then ds else d ∷ ds

abbrev pub dents_at : CString → Ptrs → Dents
dents_at m p = three (dent_at m p.s0) (dent_at m p.s1) (dent_at m p.s2)

abbrev pub rests_at : CString → Ptrs → Ptrs
rests_at m p = three (rest_at m p.s0) (rest_at m p.s1) (rest_at m p.s2)

-- Each round takes an entry off one list at least, so this many rounds are enough.
abbrev pub rounds : Ptrs → ℕ
rounds p = length p.s0 + length p.s1 + length p.s2

-- `files[i]`
unfoldable pub file_of : Option Dirent → Option Dirent
file_of none = none
file_of (some d) = if is_reg d.mode then some d else none

-- `dents[i]` where it is a directory: where the bit `i` of `dir_mask` is set, and `dirs[i]`.
unfoldable pub dir_of : Option Dirent → Option Dirent
dir_of none = none
dir_of (some d) = if is_dir d.mode then some d else none

abbrev pub dirs_at : Dents → Three (Option Dirent)
dirs_at dents = three (dir_of dents.s0) (dir_of dents.s1) (dir_of dents.s2)

-- `dirname` is set to the name of each directory in turn.
abbrev last_name : Option Dirent → Option CString → Option CString
last_name none old = old
last_name (some d) old = some d.name

-- `g_strconcat` stops at a NULL.
abbrev pub sub_basedir : CString → Option CString → CString
sub_basedir basedir none = basedir
sub_basedir basedir (some dirname) = basedir ++ (dirname ++ codes "/")

abbrev pub new_basedir : CString → Three (Option Dirent) → CString
new_basedir basedir dirs =
    sub_basedir basedir (last_name dirs.s2 (last_name dirs.s1 (last_name dirs.s0 none)))
