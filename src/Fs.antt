-- ===== src/Fs.antt =====
-- Directory objects of common/fs-mgr.c: `SeafDirent`, `SeafDir`, and the object store as the
-- merge and the diff use it. An object id is its string of 40 hexadecimal digits.
pub mod Sorted
pub mod Paths
pub mod Reading
use Prim.Native.Nat.{bit_and}
use seafile_server.Base.{
  ℕ, ◌≡◌, Bool, true, false, Option, none, some, List, [], ◌∷◌, CString, str_eq, str_lt, ◌==◌, ◌⊎◌,
  arith, if◌then◌else◌, replicate,
}

-- `SeafDirent`. The signed fields `mtime` and `size` are kept as the numbers that they stand for
-- in the tree, which are not negative; `modifier` may be NULL.
pub record Dirent : Type 0 where
  pub version : ℕ
  pub mode : ℕ
  pub id : CString
  pub name_len : ℕ
  pub name : CString
  pub mtime : ℕ
  pub modifier : Option CString
  pub size : ℕ

-- `SeafDir`, without its serialised form.
pub record SeafDir : Type 0 where
  pub version : ℕ
  pub dir_id : CString
  pub entries : List Dirent

-- `S_ISREG` and `S_ISDIR` of <sys/stat.h>.
unfoldable pub is_reg : ℕ → Bool
is_reg mode = bit_and mode 0xF000 == 0x8000

unfoldable pub is_dir : ℕ → Bool
is_dir mode = bit_and mode 0xF000 == 0x4000

abbrev pub empty_sha1 : CString
empty_sha1 = replicate 40 b'0'

-- The object store of a repository: directory objects by id, as `seaf_dir_from_data` reads them; an
-- object that this refuses is none. `write_ok` says whether the back end
-- stores the object of an id when it is asked to.
abbrev pub Objects : Type 0
Objects = CString → Option SeafDir

-- The object read is given the id that it was asked for.
abbrev read_as : CString → Option SeafDir → Option SeafDir
read_as dir_id none = none
read_as dir_id (some dir) = some (record dir { dir_id = dir_id })

-- `seaf_fs_manager_get_seafdir`
unfoldable pub get_seafdir : Objects → ℕ → CString → Option SeafDir
get_seafdir objects version dir_id =
    if str_eq dir_id empty_sha1
    then some (record { version = version; dir_id = empty_sha1; entries = [] })
    else read_as dir_id (objects dir_id)

abbrev pub write_obj : Objects → SeafDir → Objects
write_obj objects dir id = if str_eq id dir.dir_id then some dir else objects id

abbrev save_new : Bool → Option SeafDir → Objects → SeafDir → Bool × Objects
save_new ok (some old) objects dir = (true, objects)
save_new true none objects dir = (true, write_obj objects dir)
save_new false none objects dir = (false, objects)

-- `seaf_dir_save`, for entries that are read back as they are written: the flag is false where the C
-- function returns -1.
unfoldable pub dir_save : (CString → Bool) → Objects → SeafDir → Bool × Objects
dir_save write_ok objects dir =
    if str_eq dir.dir_id empty_sha1
    then (true, objects)
    else save_new (write_ok dir.dir_id) (objects dir.dir_id) objects dir

-- `seaf_dir_new` with no id given. The id of some entries, `compute_dir_id_v0` or the SHA-1
-- in `seaf_dir_to_json`, is a parameter, of which nothing is assumed.
unfoldable pub dir_new : (ℕ → List Dirent → CString) → List Dirent → ℕ → SeafDir
dir_new checksum [] version = record { version = version; dir_id = empty_sha1; entries = [] }
dir_new checksum (d ∷ ds) version = record {
  version = version;
  dir_id = checksum version (d ∷ ds);
  entries = d ∷ ds;
}

-- `compare_dirents`, by descending name, with the sort that the documentation of `g_list_sort`
-- promises, a stable one.
unfoldable pub insert_dirent : Dirent → List Dirent → List Dirent
insert_dirent d [] = d ∷ []
insert_dirent d (e ∷ es) =
    let rest = e ∷ insert_dirent d es in if str_lt d.name e.name then rest else d ∷ e ∷ es

unfoldable pub sort_dirents : List Dirent → List Dirent
unfolding insert_dirent
sort_dirents [] = []
sort_dirents (d ∷ ds) = insert_dirent d (sort_dirents ds)

-- The two kinds of entry exclude one another.
pub is_reg-is_dir : (mode : ℕ) → is_reg mode ≡ true → is_dir mode ≡ false
unfolding is_reg is_dir
is_reg-is_dir mode h = ground arith

-- A file or a directory.
abbrev pub IsEntry : Dirent → Type 0
IsEntry d = (is_reg d.mode ≡ true) ⊎ (is_dir d.mode ≡ true)
