-- ===== src/Fs/Paths.antt =====
-- Lookup by path in common/fs-mgr.c: `is_dirents_sorted`, `seaf_fs_manager_get_seafdir_sorted`,
-- `seaf_fs_manager_get_seafdir_by_path`, `seaf_fs_manager_path_to_obj_id` and its callers.
use seafile_server.Base.{
  ℕ, Bool, true, false, not, ◌&&◌, ◌||◌, Option, none, some, List, [], ◌∷◌, ◌++◌, CString, str_eq,
  str_lt, ltb, ◌==◌, if◌then◌else◌,
}
use seafile_server.Hex.{is_object_id_valid}
use seafile_server.Fs.{Dirent, SeafDir, Objects, get_seafdir, sort_dirents, is_dir}

unfoldable pub is_dirents_sorted : List Dirent → Bool
is_dirents_sorted [] = true
is_dirents_sorted (dent ∷ []) = true
is_dirents_sorted (dent ∷ dent_n ∷ ds) =
    let rest = is_dirents_sorted (dent_n ∷ ds) in
    if str_lt dent.name dent_n.name then false else rest

abbrev sort_old : ℕ → Option SeafDir → Option SeafDir
sort_old version none = none
sort_old version (some dir) =
    if ltb 0 version || is_dirents_sorted dir.entries
    then some dir
    else some (record dir { entries = sort_dirents dir.entries })

unfoldable pub get_seafdir_sorted : Objects → ℕ → CString → Option SeafDir
unfolding get_seafdir is_dirents_sorted sort_dirents
get_seafdir_sorted objects version dir_id = sort_old version (get_seafdir objects version dir_id)

-- `strtok_r (path, "/", …)`, over and over: the parts between slashes that are not empty.
abbrev pub add_part : CString → List CString → List CString
add_part [] parts = parts
add_part (c ∷ part) parts = (c ∷ part) ∷ parts

unfoldable pub tokens_from : CString → CString → List CString
tokens_from part [] = add_part part []
tokens_from part (c ∷ path) =
    if c == b'/' then add_part part (tokens_from [] path) else tokens_from (part ++ c ∷ []) path

unfoldable pub tokens : CString → List CString
unfolding tokens_from
tokens path = tokens_from [] path

-- The directory, or one of the two errors.
pub data DirResult : Type 0 where
  found_dir : SeafDir → DirResult
  path_no_exist dir_missing : DirResult

-- The loop over the entries: the first directory with the name.
unfoldable pub find_dir : CString → List Dirent → Option Dirent
find_dir name [] = none
find_dir name (dent ∷ ds) =
    let rest = find_dir name ds in
    if str_eq dent.name name && is_dir dent.mode then some dent else rest

module _ (objects : Objects) (version : ℕ) where
  abbrev pub enter : (Dirent → Option SeafDir → DirResult) → Option Dirent → DirResult
  enter next none = path_no_exist
  enter next (some dent) = next dent (get_seafdir objects version dent.id)

  -- The `while` loop, on the names left and the directory loaded last.
  unfoldable pub walk_down : List CString → Option SeafDir → DirResult
  unfolding find_dir
  walk_down names none = dir_missing
  walk_down [] (some dir) = found_dir dir
  walk_down (name ∷ names) (some dir) =
      enter (λ dent next. walk_down names next) (find_dir name dir.entries)

  unfoldable pub get_seafdir_by_path : CString → CString → DirResult
  unfolding walk_down tokens get_seafdir
  get_seafdir_by_path root_id path = walk_down (tokens path) (get_seafdir objects version root_id)

abbrev strip_at : ℕ → CString → CString
strip_at c [] = if c == b'/' then [] else c ∷ []
strip_at c (d ∷ rest) = c ∷ d ∷ rest

abbrev slash_step : ℕ → CString → Option (CString × CString) → Option (CString × CString)
slash_step c path (some (above, name)) = some (c ∷ above, name)
slash_step c path none = if c == b'/' then some ([], path) else none

-- The trailing slashes are cut off.
unfoldable pub strip_slashes : CString → CString
strip_slashes [] = []
strip_slashes (c ∷ path) = strip_at c (strip_slashes path)

-- `strrchr (copy, '/')`: the text before the last slash and after it.
unfoldable pub split_slash : CString → Option (CString × CString)
split_slash [] = none
split_slash (c ∷ path) = slash_step c path (split_slash path)

-- What `seaf_fs_manager_path_to_obj_id` finds: an id and a mode, NULL without an error, or one of
-- the errors of the lookup of the directory above.
pub data ObjResult : Type 0 where
  found_obj : CString → ℕ → ObjResult
  no_obj no_parent parent_missing : ObjResult

-- The first entry with the name, of those with a valid id.
unfoldable pub find_obj : CString → List Dirent → ObjResult
unfolding is_object_id_valid
find_obj name [] = no_obj
find_obj name (dent ∷ ds) =
    let rest = find_obj name ds in
    if is_object_id_valid dent.id && str_eq dent.name name
    then found_obj dent.id dent.mode
    else rest

abbrev find_obj_in : CString → DirResult → ObjResult
find_obj_in name (found_dir dir) = find_obj name dir.entries
find_obj_in name path_no_exist = no_parent
find_obj_in name dir_missing = parent_missing

module _ (objects : Objects) (version : ℕ) where
  abbrev obj_below : CString → CString → Option (CString × CString) → ObjResult
  obj_below root_id copy none =
      find_obj_in copy (walk_down objects version [] (get_seafdir objects version root_id))
  obj_below root_id copy (some (above, name)) =
      find_obj_in name (get_seafdir_by_path objects version root_id above)

  abbrev obj_at : CString → CString → ObjResult
  obj_at root_id [] = found_obj root_id 0x4000
  obj_at root_id (c ∷ copy) = obj_below root_id (c ∷ copy) (split_slash (c ∷ copy))

  unfoldable pub path_to_obj_id : CString → CString → ObjResult
  unfolding strip_slashes split_slash find_obj walk_down get_seafdir_by_path get_seafdir
  path_to_obj_id root_id path = obj_at root_id (strip_slashes path)

  abbrev only_mode : (ℕ → Bool) → ObjResult → Option CString
  only_mode wanted (found_obj id mode) = if wanted mode then some id else none
  only_mode wanted no_obj = none
  only_mode wanted no_parent = none
  only_mode wanted parent_missing = none

  unfoldable pub get_seafile_id_by_path : CString → CString → Option CString
  unfolding path_to_obj_id
  get_seafile_id_by_path root_id path =
      only_mode (λ mode. not (is_dir mode)) (path_to_obj_id root_id path)

  unfoldable pub get_seafdir_id_by_path : CString → CString → Option CString
  unfolding path_to_obj_id
  get_seafdir_id_by_path root_id path = only_mode is_dir (path_to_obj_id root_id path)
