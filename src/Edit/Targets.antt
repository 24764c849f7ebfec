-- ===== src/Edit/Targets.antt =====
-- What is done in the target directory: `post_file_recursive`, `post_multi_files_recursive` with
-- `add_new_entries`, `put_file_recursive`, `rename_file_recursive` and `del_file_recursive` of
-- server/repo-op.c, each with its `do_…`; and `seaf_dirent_new` of common/fs-mgr.c.
use Prim.Native.Nat.{bit_or}
use seafile_server.Base.{
  ℕ, suc, Bool, true, false, ◌&&◌, Option, none, some, List, [], ◌∷◌, ◌++◌, CString, str_eq, ltb,
  ◌==◌, if◌then◌else◌, length,
}
use seafile_server.Fs.{Dirent, is_reg, insert_dirent}
use seafile_server.Merge.Trees.{dir_version_from_repo_version}
use seafile_server.Edit.{EditEnv}
use seafile_server.Edit.Names.{filename_exists, generate_unique_filename}
use seafile_server.Edit.Walk.{Target, fails, same, makes}

-- Fields that are not set are 0 or NULL.
unfoldable pub dirent_new : ℕ → CString → ℕ → CString → ℕ → Option CString → ℕ → Dirent
dirent_new version sha1 mode name mtime modifier size = record {
  version = version;
  mode = if is_reg mode then bit_or mode 0x1A4 else mode;
  id = sha1;
  name_len = length name;
  name = name;
  mtime = if ltb 0 version then mtime else 0;
  modifier = if ltb 0 version && is_reg mode then modifier else none;
  size = if ltb 0 version && is_reg mode then size else 0;
}

-- Every entry with the name of the new one is replaced.
unfoldable pub replace_entries : Dirent → List Dirent → List Dirent
replace_entries newdent [] = []
replace_entries newdent (dent ∷ ds) =
    (if str_eq dent.name newdent.name then newdent else dent) ∷ replace_entries newdent ds

-- A copy of the entry under another name.
abbrev pub with_name : Dirent → CString → Dirent
with_name dent name =
    dirent_new dent.version dent.id dent.mode name dent.mtime dent.modifier dent.size

abbrev pub add_under : Dirent → List Dirent → Option CString → Target (Unit {0})
add_under newdent entries none = fails
add_under newdent entries (some unique_name) =
    makes (insert_dirent (with_name newdent unique_name) entries) tt

-- `g_list_insert_sorted` puts the new entry where the sort would.
unfoldable pub post_target : Bool → Dirent → List Dirent → Target (Unit {0})
unfolding filename_exists replace_entries generate_unique_filename insert_dirent dirent_new
post_target replace_existed newdent entries =
    if replace_existed && filename_exists entries newdent.name
    then makes (replace_entries newdent entries) tt
    else add_under newdent entries (generate_unique_filename newdent.name entries)

unfoldable pub put_target : Dirent → List Dirent → Target (Unit {0})
unfolding replace_entries
put_target newdent entries = makes (replace_entries newdent entries) tt

unfoldable pub others : CString → List Dirent → List Dirent
others oldname [] = []
others oldname (old ∷ ds) =
    let rest = others oldname ds in if str_eq old.name oldname then rest else old ∷ rest

-- The last entry with the old name, under the new one.
unfoldable pub renamed_entry : CString → CString → List Dirent → Option Dirent → Option Dirent
unfolding dirent_new
renamed_entry oldname newname [] newdent = newdent
renamed_entry oldname newname (old ∷ ds) newdent =
    renamed_entry oldname newname ds
      (if str_eq old.name oldname then some (with_name old newname) else newdent)

abbrev pub insert_some : Option Dirent → List Dirent → List Dirent
insert_some none entries = entries
insert_some (some newdent) entries = insert_dirent newdent entries

unfoldable pub rename_target : CString → CString → List Dirent → Target (Unit {0})
unfolding others renamed_entry insert_dirent
rename_target oldname newname entries =
    makes (insert_some (renamed_entry oldname newname entries none) (others oldname entries)) tt

-- What a deletion reports: the mode of the last entry deleted, the name of the first, and how many.
pub record Deleted : Type 0 where
  pub mode : Option ℕ
  pub desc_file : Option CString
  pub deleted_num : ℕ

abbrev pub is_listed : List CString → CString → Bool
is_listed [] name = false
is_listed (file ∷ files) name =
    let rest = is_listed files name in if str_eq name file then true else rest

abbrev pub or_first : Option CString → CString → Option CString
or_first none name = some name
or_first (some first) name = some first

abbrev pub count_deleted : Deleted → Dirent → Deleted
count_deleted del old = record {
  mode = some old.mode;
  desc_file = or_first del.desc_file old.name;
  deleted_num = suc del.deleted_num;
}

-- The loop over the entries.
unfoldable pub keep_others : List CString → List Dirent → Deleted → List Dirent × Deleted
keep_others filenames [] del = ([], del)
keep_others filenames (old ∷ ds) del =
    let found = is_listed filenames old.name in
    let (rest, last) = keep_others filenames ds (if found then count_deleted del old else del) in
    (if found then rest else old ∷ rest, last)

abbrev pub deleted_or_same : List Dirent × Deleted → Target Deleted
deleted_or_same (entries, del) = if del.deleted_num == 0 then same del else makes entries del

abbrev pub nothing_deleted : Deleted
nothing_deleted = record { mode = none; desc_file = none; deleted_num = 0 }

-- On the names that `json_to_file_list` reads; no name is its NULL.
unfoldable pub del_target : List CString → List Dirent → Target Deleted
unfolding keep_others
del_target [] entries = fails
del_target (file ∷ files) entries =
    deleted_or_same (keep_others (file ∷ files) entries nothing_deleted)

-- The first entry with the name is taken out.
unfoldable pub without_first : CString → List Dirent → List Dirent
without_first name [] = []
without_first name (dent ∷ ds) =
    let rest = dent ∷ without_first name ds in if str_eq dent.name name then ds else rest

abbrev Added : Type 0
Added = Option (List Dirent × List CString)

module _ (E : EditEnv) where
  abbrev new_entry : CString → Dirent → CString → Dirent
  new_entry user dent name =
      dirent_new (dir_version_from_repo_version E.version) dent.id dent.mode name dent.mtime
        (some user) dent.size

  abbrev add_entry :
      (List Dirent → List CString → Added)
      → CString
      → Dirent
      → List Dirent
      → List CString
      → Option CString
      → Added
  add_entry next user dent entries name_list none = none
  add_entry next user dent entries name_list (some unique_name) =
      next (insert_dirent (new_entry user dent unique_name) entries) (name_list ++ unique_name ∷ [])

  -- `none` where the C function returns -1.
  unfoldable pub add_new_entries : CString → Bool → List Dirent → List Dirent → List CString → Added
  unfolding filename_exists without_first generate_unique_filename insert_dirent dirent_new
  add_new_entries user replace_existed [] entries name_list = some (entries, name_list)
  add_new_entries user replace_existed (dent ∷ dents) entries name_list =
      let next = λ (es : List Dirent) (ns : List CString).
        add_new_entries user replace_existed dents es ns in
      if replace_existed && filename_exists entries dent.name
      then add_entry next user dent (without_first dent.name entries) name_list (some dent.name)
      else add_entry next user dent entries name_list (generate_unique_filename dent.name entries)

  abbrev made_or_fails : Added → Target (List CString)
  made_or_fails none = fails
  made_or_fails (some (entries, name_list)) = makes entries name_list

  abbrev pub post_multi_target : CString → Bool → List Dirent → List Dirent → Target (List CString)
  post_multi_target user replace_existed dents entries =
      made_or_fails (add_new_entries user replace_existed dents entries [])
