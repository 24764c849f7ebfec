-- ===== src/Edit/Walk.antt =====
-- The recursion that `post_file_recursive`, `post_multi_files_recursive`, `put_file_recursive`,
-- `rename_file_recursive` and `del_file_recursive` of server/repo-op.c share, statement for
-- statement: they differ in what they do to the entries of the target directory, and in whether the
-- time of an entry on the way is set.
use seafile_server.Base.{
  ℕ, Bool, true, false, ◌&&◌, Option, none, some, List, [], ◌∷◌, CString, str_eq, ltb, ◌==◌,
  if◌then◌else◌,
}
use seafile_server.Fs.{Dirent, SeafDir, Objects, dir_new}
use seafile_server.Fs.Reading.{dir_write}
use seafile_server.Fs.Paths.{get_seafdir_sorted}
use seafile_server.Merge.Trees.{dir_version_from_repo_version}
use seafile_server.Edit.{EditEnv}

-- `to_path` is cut at its first slash in each call, until nothing remains: the names that the
-- recursion looks for. Two slashes in a row give an empty name; a slash at the end gives none.
abbrev pub add_char : ℕ → List CString → List CString
add_char c [] = (c ∷ []) ∷ []
add_char c (name ∷ names) = (c ∷ name) ∷ names

unfoldable pub components : CString → List CString
components [] = []
components (c ∷ to_path) =
    let rest = components to_path in if c == b'/' then [] ∷ rest else add_char c rest

-- `do_…`: a slash at the beginning is dropped.
abbrev pub drop_slash : CString → CString
drop_slash [] = []
drop_slash (c ∷ path) = if c == b'/' then path else c ∷ path

-- What is done to the entries of the target: nothing because of an error, nothing because they are
-- as wanted, or new entries. It also reports something.
pub data Target {ℓ} (A : Type ℓ) : Type ℓ where
  fails : Target A
  same : A → Target A
  makes : List Dirent → A → Target A

-- NULL, the id of the directory as it was, or the id of a new one.
pub data Edited {ℓ} (A : Type ℓ) : Type ℓ where
  failed : Edited A
  unchanged : CString → A → Edited A
  changed : CString → A → Edited A

-- The loop over the entries: the first with the name.
unfoldable pub find_entry : CString → List Dirent → Option Dirent
find_entry name [] = none
find_entry name (dent ∷ ds) =
    let rest = find_entry name ds in if str_eq dent.name name then some dent else rest

-- The first entry with the name is overwritten.
unfoldable pub set_entry : CString → Dirent → List Dirent → List Dirent
set_entry name new [] = []
set_entry name new (dent ∷ ds) =
    let rest = dent ∷ set_entry name new ds in if str_eq dent.name name then new ∷ ds else rest

module _ (E : EditEnv) where
  abbrev pub new_dir : List Dirent → SeafDir
  new_dir entries = dir_new E.checksum entries (dir_version_from_repo_version E.version)

  module _ {ℓ} {A : Type ℓ} (target : List Dirent → Target A) (touches : Bool) where
    abbrev pub saved : CString → A → Bool × Objects → Edited A × Objects
    saved id a (true, objects) = (changed id a, objects)
    saved id a (false, objects) = (failed, objects)

    -- `seaf_dir_new` and `seaf_dir_save` of the new entries.
    unfoldable pub save_dir : List Dirent → A → Objects → Edited A × Objects
    unfolding dir_write dir_new
    save_dir entries a objects =
        saved (new_dir entries).dir_id a (dir_write E.write_ok E.is_text objects (new_dir entries))

    abbrev pub at_target : SeafDir → Target A → Objects → Edited A × Objects
    at_target olddir fails objects = (failed, objects)
    at_target olddir (same a) objects = (unchanged olddir.dir_id a, objects)
    at_target olddir (makes entries a) objects = save_dir entries a objects

    -- The entry on the way, with the new id, and the time where the repository keeps times.
    abbrev pub touched : List CString → CString → Dirent → Dirent
    touched names id dent =
        if touches && ltb 0 E.version
        then record dent { id = id; mtime = E.now names }
        else record dent { id = id }

    abbrev pub back_up :
        CString → List CString → SeafDir → Dirent → Edited A × Objects → Edited A × Objects
    back_up name names olddir dent (failed, objects) = (failed, objects)
    back_up name names olddir dent (unchanged id a, objects) = (unchanged olddir.dir_id a, objects)
    back_up name names olddir dent (changed id a, objects) =
        save_dir (set_entry name (touched (name ∷ names) id dent) olddir.entries) a objects

    abbrev pub below :
        CString
        → List CString
        → SeafDir
        → (CString → Edited A × Objects)
        → Objects
        → Option Dirent
        → Edited A × Objects
    below name names olddir recurse objects none = (failed, objects)
    below name names olddir recurse objects (some dent) =
        back_up name names olddir dent (recurse dent.id)

    abbrev pub in_dir :
        (SeafDir → Edited A × Objects) → Objects → Option SeafDir → Edited A × Objects
    in_dir next objects none = (failed, objects)
    in_dir next objects (some olddir) = next olddir

    unfoldable pub edit_recursive : List CString → CString → Objects → Edited A × Objects
    unfolding get_seafdir_sorted find_entry set_entry save_dir
    edit_recursive [] dir_id objects =
        in_dir (λ olddir. at_target olddir (target olddir.entries) objects) objects
          (get_seafdir_sorted objects E.version dir_id)
    edit_recursive (name ∷ names) dir_id objects =
        in_dir
          (λ olddir.
            below name names olddir (λ id. edit_recursive names id objects) objects
              (find_entry name olddir.entries))
          objects (get_seafdir_sorted objects E.version dir_id)

    unfoldable pub do_edit : CString → CString → Objects → Edited A × Objects
    unfolding edit_recursive components
    do_edit root_id parent_dir objects =
        edit_recursive (components (drop_slash parent_dir)) root_id objects
