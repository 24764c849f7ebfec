-- ===== src/Ops/Posts.antt =====
-- `seaf_repo_manager_post_dir`, `seaf_repo_manager_post_empty_file` and
-- `seaf_repo_manager_put_file` of server/repo-op.c.
use seafile_server.Base.{
  ℕ, Bool, true, false, not, ◌||◌, Option, none, some, List, [], ◌∷◌, ◌++◌, CString, codes, str_eq,
  ◌==◌, ◌&&◌, if◌then◌else◌,
}
use seafile_server.Hex.{rawdata_to_hex}
use seafile_server.Fs.{Dirent, Objects, empty_sha1}
use seafile_server.Fs.Paths.{
  ObjResult, found_obj, no_obj, no_parent, parent_missing, path_to_obj_id,
}
use seafile_server.Merge.Trees.{dir_version_from_repo_version}
use seafile_server.Edit.Walk.{Edited, failed, unchanged, changed}
use seafile_server.Edit.Targets.{dirent_new}
use seafile_server.Edit.Recursions.{do_post_file, do_post_file_replace, do_put_file, std_file_mode}
use seafile_server.Commit.{Commit, Repo, get_commit}
use seafile_server.Commit.Publish.{World, get_repo, gen_new_commit}
use seafile_server.Ops.{
  OpsEnv, OpResult, success, bad_args, general_error, get_canonical_path, check_file_exists,
  should_ignore_file, edit_env, change_of, after_commit, with_objects, with_repo, with_commit,
  exists, in_buffer,
}

abbrev two_slashes : CString → Bool
two_slashes [] = false
two_slashes (c ∷ []) = false
two_slashes (c ∷ d ∷ path) =
    let rest = two_slashes (d ∷ path) in if c == b'/' && d == b'/' then true else rest

-- The id of an object that was found; `g_strcmp0` takes none for less than any.
abbrev is_same : ObjResult → CString → Bool
is_same (found_obj old mode) id = str_eq old id
is_same no_obj id = false
is_same no_parent id = false
is_same parent_missing id = false

-- `now` is `time (NULL)` when the entry is made.
module _ (O : OpsEnv) (now : ℕ) (repo_id parent_dir user : CString) where
  abbrev after_post : Commit → CString → World → Edited (Unit {0}) × Objects → OpResult × World
  after_post head_commit text w (failed, objects) = (general_error, with_objects O w objects)
  after_post head_commit text w (unchanged root_id x, objects) = after_commit O repo_id (
      gen_new_commit O.publish (change_of O head_commit root_id user) repo_id text
        (with_objects O w objects))
  after_post head_commit text w (changed root_id x, objects) = after_commit O repo_id (
      gen_new_commit O.publish (change_of O head_commit root_id user) repo_id text
        (with_objects O w objects))

  abbrev checked_post : Repo → Commit → Dirent → CString → World → Option Dirent → OpResult × World
  checked_post repo head_commit new_dent text w (some old) = (bad_args, w)
  checked_post repo head_commit new_dent text w none = after_post head_commit text w (
      do_post_file (edit_env O repo.attributes.version) head_commit.root_id
        (get_canonical_path parent_dir) new_dent w.objects)

  -- A directory and an empty file are posted alike.
  abbrev post_in : (ℕ → Dirent) → CString → CString → World → Repo → Commit → OpResult × World
  post_in dent_of text name w repo head_commit =
      if should_ignore_file O name
      then (bad_args, w)
      else checked_post repo head_commit
          (dent_of (dir_version_from_repo_version repo.attributes.version)) text w
          (exists O repo_id parent_dir user repo head_commit w name)

  -- The size -1 of a directory is not kept.
  abbrev new_directory : CString → ℕ → Dirent
  new_directory name version = dirent_new version empty_sha1 0x4000 name now none 0

  abbrev new_file : CString → CString → ℕ → ℕ → Dirent
  new_file id name size version = dirent_new version id std_file_mode name now (some user) size

  unfoldable pub post_dir : CString → World → OpResult × World
  unfolding get_repo get_commit should_ignore_file check_file_exists get_canonical_path
      do_post_file_replace gen_new_commit
  post_dir new_dir_name w =
      with_repo O
        (post_in (new_directory new_dir_name)
          (in_buffer (codes "Added directory \"" ++ new_dir_name ++ codes "\"")) new_dir_name w)
        w (get_repo O.publish w repo_id)

  unfoldable pub post_empty_file : CString → World → OpResult × World
  unfolding get_repo get_commit should_ignore_file check_file_exists get_canonical_path
      do_post_file_replace gen_new_commit
  post_empty_file new_file_name w =
      with_repo O
        (post_in (new_file empty_sha1 new_file_name 0)
          (in_buffer (codes "Added \"" ++ new_file_name ++ codes "\"")) new_file_name w)
        w (get_repo O.publish w repo_id)

  -- The file that is put: whether it can be read, whether the key of an encrypted library is there,
  -- what `seaf_fs_manager_index_blocks` makes of it (the bytes of the id, and the size), and what
  -- `g_build_filename` makes of the path.
  module _ (readable has_key : Bool) (indexed : Repo → Option (List ℕ × ℕ))
      (build_filename : CString → CString → CString) (head_id : Option CString)
      (file_name : CString) where
    abbrev put_dent : Repo → Commit → World → Dirent → OpResult × World
    put_dent repo head_commit w new_dent =
        if is_same
          (path_to_obj_id w.objects repo.attributes.version head_commit.root_id
            (build_filename parent_dir file_name))
          new_dent.id
        then (success, w)
        else after_post head_commit (in_buffer (codes "Modified \"" ++ file_name ++ codes "\"")) w (
            do_put_file (edit_env O repo.attributes.version) head_commit.root_id
              (get_canonical_path parent_dir) new_dent w.objects)

    abbrev after_index : Repo → Commit → World → Option (List ℕ × ℕ) → OpResult × World
    after_index repo head_commit w none = (general_error, w)
    after_index repo head_commit w (some (sha1, size)) = put_dent repo head_commit w (
        new_file (rawdata_to_hex sha1) file_name size
          (dir_version_from_repo_version repo.attributes.version))

    abbrev checked_put : Repo → Commit → World → Option Dirent → OpResult × World
    checked_put repo head_commit w none = (bad_args, w)
    checked_put repo head_commit w (some old) =
        if repo.attributes.encrypted && not has_key
        then (general_error, w)
        else after_index repo head_commit w (indexed repo)

    abbrev put_in : World → Repo → Commit → OpResult × World
    put_in w repo head_commit =
        if should_ignore_file O file_name || two_slashes parent_dir
        then (bad_args, w)
        else checked_put repo head_commit w
            (exists O repo_id parent_dir user repo head_commit w file_name)

    -- The commit that the caller names, or the head.
    abbrev base_of : Repo → Option CString → CString
    base_of repo none = repo.head.commit_id
    base_of repo (some id) = id

    abbrev with_base : World → Option Repo → OpResult × World
    with_base w none = (bad_args, w)
    with_base w (some repo) =
        with_commit O (put_in w) w repo (get_commit w.commits repo.id (base_of repo head_id))

    unfoldable pub put_file : World → OpResult × World
    unfolding get_repo get_commit should_ignore_file check_file_exists get_canonical_path
        do_put_file gen_new_commit path_to_obj_id rawdata_to_hex
    put_file w = if readable then with_base w (get_repo O.publish w repo_id) else (bad_args, w)
