-- ===== src/Edit/Recursions.antt =====
-- The recursions of server/repo-op.c that change a directory, on the names of `to_path`, and their
-- callers `do_…`, which drop a slash at the beginning of the path.
use seafile_server.Base.{ℕ, Bool, true, false, none, List, [], ◌∷◌, CString, take}
use seafile_server.Fs.{Dirent, Objects}
use seafile_server.Edit.{EditEnv}
use seafile_server.Edit.Walk.{Edited, components, drop_slash, edit_recursive}
use seafile_server.Edit.Targets.{
  post_target, post_multi_target, add_new_entries, put_target, rename_target, Deleted, del_target,
}

-- S_IFREG | 0644
abbrev pub std_file_mode : ℕ
std_file_mode = 0x81A4

-- The entries of the loop over the three lists, which ends with the shortest; the fields that are not
-- set are 0 or NULL.
unfoldable pub multi_dents : (CString → ℕ) → List CString → List CString → List ℕ → List Dirent
multi_dents time_of (name ∷ filenames) (id ∷ id_list) (size ∷ size_list) =
    record {
      version = 0;
      mode = std_file_mode;
      id = take 40 id;
      name_len = 0;
      name = name;
      mtime = time_of name;
      modifier = none;
      size = size;
    }
    ∷ multi_dents time_of filenames id_list size_list
multi_dents time_of [] id_list size_list = []
multi_dents time_of (name ∷ filenames) [] size_list = []
multi_dents time_of (name ∷ filenames) (id ∷ id_list) [] = []

module _ (E : EditEnv) where
  abbrev pub post_file_recursive :
      Bool → Dirent → List CString → CString → Objects → Edited (Unit {0}) × Objects
  post_file_recursive replace_existed newdent to_path dir_id objects =
      edit_recursive E (post_target replace_existed newdent) true to_path dir_id objects

  abbrev pub post_multi_files_recursive :
      List Dirent
      → CString
      → Bool
      → List CString
      → CString
      → Objects
      → Edited (List CString) × Objects
  post_multi_files_recursive dents user replace_existed to_path dir_id objects =
      edit_recursive E (post_multi_target E user replace_existed dents) true to_path dir_id objects

  abbrev pub put_file_recursive :
      Dirent → List CString → CString → Objects → Edited (Unit {0}) × Objects
  put_file_recursive newdent to_path dir_id objects =
      edit_recursive E (put_target newdent) true to_path dir_id objects

  -- The time of an entry on the way is not set.
  abbrev pub rename_file_recursive :
      CString → CString → List CString → CString → Objects → Edited (Unit {0}) × Objects
  rename_file_recursive oldname newname to_path dir_id objects =
      edit_recursive E (rename_target oldname newname) false to_path dir_id objects

  abbrev pub del_file_recursive :
      List CString → List CString → CString → Objects → Edited Deleted × Objects
  del_file_recursive filenames to_path dir_id objects =
      edit_recursive E (del_target filenames) true to_path dir_id objects

  unfoldable pub do_post_file_replace :
      CString → CString → Bool → Dirent → Objects → Edited (Unit {0}) × Objects
  unfolding edit_recursive components post_target
  do_post_file_replace root_id parent_dir replace_existed dent objects =
      post_file_recursive replace_existed dent (components (drop_slash parent_dir)) root_id objects

  abbrev pub do_post_file : CString → CString → Dirent → Objects → Edited (Unit {0}) × Objects
  do_post_file root_id parent_dir dent objects =
      do_post_file_replace root_id parent_dir false dent objects

  -- `time_of` is `time (NULL)` when the entry of a name is made.
  unfoldable pub do_post_multi_files :
      CString
      → CString
      → List CString
      → List CString
      → List ℕ
      → (CString → ℕ)
      → CString
      → Bool
      → Objects
      → Edited (List CString) × Objects
  unfolding edit_recursive components add_new_entries multi_dents
  do_post_multi_files root_id parent_dir filenames id_list size_list time_of user replace_existed
        objects =
      post_multi_files_recursive (multi_dents time_of filenames id_list size_list) user
        replace_existed (components (drop_slash parent_dir)) root_id objects

  unfoldable pub do_put_file : CString → CString → Dirent → Objects → Edited (Unit {0}) × Objects
  unfolding edit_recursive components put_target
  do_put_file root_id parent_dir dent objects =
      put_file_recursive dent (components (drop_slash parent_dir)) root_id objects

  unfoldable pub do_rename_file :
      CString → CString → CString → CString → Objects → Edited (Unit {0}) × Objects
  unfolding edit_recursive components rename_target
  do_rename_file root_id parent_dir oldname newname objects =
      rename_file_recursive oldname newname (components (drop_slash parent_dir)) root_id objects

  unfoldable pub do_del_file : CString → CString → List CString → Objects → Edited Deleted × Objects
  unfolding edit_recursive components del_target
  do_del_file root_id parent_dir filenames objects =
      del_file_recursive filenames (components (drop_slash parent_dir)) root_id objects
