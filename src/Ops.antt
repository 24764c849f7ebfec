-- ===== src/Ops.antt =====
-- Operations on a library, server/repo-op.c: `seaf_repo_manager_rename_file` and
-- `seaf_repo_manager_del_file`, which check their arguments against the tree of the head, edit that
-- tree and publish the new root.
pub mod Lands
pub mod Ways
pub mod Posts
use seafile_server.Base.{
  ℕ, suc, ◌-◌, Bool, true, false, not, ◌||◌, Option, none, some, List, [], ◌∷◌, ◌++◌, CString,
  codes, str_eq, ltb, leb, length, take, ◌==◌, if◌then◌else◌,
}
use seafile_server.Fs.{Dirent, SeafDir, Objects, is_dir}
use seafile_server.Fs.Paths.{
  DirResult, found_dir, path_no_exist, dir_missing, get_seafdir_by_path, strip_slashes,
}
use seafile_server.Edit.{EditEnv}
use seafile_server.Edit.Names.{decimal}
use seafile_server.Edit.Walk.{Edited, failed, unchanged, changed, find_entry}
use seafile_server.Edit.Recursions.{do_rename_file, do_del_file}
use seafile_server.Edit.Targets.{Deleted}
use seafile_server.Commit.{Commit, Repo, get_commit}
use seafile_server.Commit.Publish.{
  World, PublishEnv, Change, Outcome, committed, refused, Refusal, get_repo, gen_new_commit,
}

abbrev slashed : CString → CString
slashed [] = []
slashed (c ∷ path) = (if c == 0x5C then b'/' else c) ∷ slashed path

-- Backslashes become slashes, and those at the end are cut off.
unfoldable pub get_canonical_path : CString → CString
unfolding strip_slashes
get_canonical_path path = strip_slashes (slashed path)

abbrev has_slash : CString → Bool
has_slash [] = false
has_slash (c ∷ name) = c == b'/' || has_slash name

-- The outside world: `g_utf8_validate`, the clock of an edit, and what
-- `seaf_repo_manager_merge_virtual_repo` sets going. `depth` bounds the recursion of a merge.
pub record OpsEnv : Type 0 where
  pub publish : PublishEnv
  -- the strings that Jansson takes for a JSON string
  pub is_text : CString → Bool
  pub is_utf8 : CString → Bool
  pub touched_at : List CString → ℕ
  pub merge_virtual_repo : CString → World → World
  pub depth : ℕ

abbrev in_found : CString → DirResult → Option Dirent
in_found filename (found_dir dir) = find_entry filename dir.entries
in_found filename path_no_exist = none
in_found filename dir_missing = none

-- The entry that is there, whose mode is reported, or none.
unfoldable pub check_file_exists : Objects → ℕ → CString → CString → CString → Option Dirent
unfolding get_seafdir_by_path find_entry
check_file_exists objects version root_id parent_dir filename =
    in_found filename (get_seafdir_by_path objects version root_id parent_dir)

pub data OpResult : Type 0 where
  success : OpResult
  bad_args general_error : OpResult
  not_published : Refusal → OpResult

abbrev dir_found : DirResult → Bool
dir_found (found_dir dir) = true
dir_found path_no_exist = false
dir_found dir_missing = false

-- `snprintf` into a buffer of SEAF_PATH_MAX bytes.
abbrev pub in_buffer : CString → CString
in_buffer text = take 4095 text

module _ (O : OpsEnv) where
  unfoldable pub should_ignore_file : CString → Bool
  should_ignore_file filename =
      not (O.is_utf8 filename) || leb 256 (length filename) || has_slash filename

  abbrev pub edit_env : ℕ → EditEnv
  edit_env version = record {
    version = version;
    checksum = O.publish.checksum;
    write_ok = O.publish.write_ok;
    is_text = O.is_text;
    now = O.touched_at;
  }

  abbrev pub change_of : Commit → CString → CString → Change
  change_of head_commit root_id user = record {
    depth = O.depth;
    base = head_commit;
    new_root = root_id;
    user = user;
    retry_on_conflict = true;
  }

  abbrev pub after_commit : CString → Outcome × World → OpResult × World
  after_commit repo_id (committed id, w) = (success, O.merge_virtual_repo repo_id w)
  after_commit repo_id (refused why, w) = (not_published why, w)

  abbrev pub with_objects : World → Objects → World
  with_objects w objects = record w { objects = objects }

  abbrev pub with_commit :
      (Repo → Commit → OpResult × World) → World → Repo → Option Commit → OpResult × World
  with_commit next w repo none = (bad_args, w)
  with_commit next w repo (some head_commit) = next repo head_commit

  -- GET_REPO_OR_FAIL and GET_COMMIT_OR_FAIL
  abbrev pub with_repo : (Repo → Commit → OpResult × World) → World → Option Repo → OpResult × World
  with_repo next w none = (bad_args, w)
  with_repo next w (some repo) =
      with_commit next w repo (get_commit w.commits repo.id repo.head.commit_id)

  module _ (repo_id parent_dir user : CString) where
    abbrev pub rename_text : CString → Dirent → CString
    rename_text oldname dent = in_buffer (
        (if is_dir dent.mode then codes "Renamed directory \"" else codes "Renamed \"")
        ++ oldname
        ++ codes "\"")

    abbrev pub after_rename :
        Commit → CString → World → Edited (Unit {0}) × Objects → OpResult × World
    after_rename head_commit text w (failed, objects) = (bad_args, with_objects w objects)
    after_rename head_commit text w (unchanged root_id x, objects) = after_commit repo_id (
        gen_new_commit O.publish (change_of head_commit root_id user) repo_id text
          (with_objects w objects))
    after_rename head_commit text w (changed root_id x, objects) = after_commit repo_id (
        gen_new_commit O.publish (change_of head_commit root_id user) repo_id text
          (with_objects w objects))

    abbrev pub checked_rename :
        Repo → Commit → CString → CString → World → Option Dirent → Option Dirent → OpResult × World
    checked_rename repo head_commit oldname newname w none new = (bad_args, w)
    checked_rename repo head_commit oldname newname w (some old) (some new) = (bad_args, w)
    checked_rename repo head_commit oldname newname w (some old) none =
        after_rename head_commit (rename_text oldname old) w (
          do_rename_file (edit_env repo.attributes.version) head_commit.root_id
            (get_canonical_path parent_dir) oldname newname w.objects)

    abbrev pub exists : Repo → Commit → World → CString → Option Dirent
    exists repo head_commit w name =
        check_file_exists w.objects repo.attributes.version head_commit.root_id
          (get_canonical_path parent_dir) name

    abbrev pub rename_in : CString → CString → World → Repo → Commit → OpResult × World
    rename_in oldname newname w repo head_commit =
        if should_ignore_file newname
        then (bad_args, w)
        else checked_rename repo head_commit oldname newname w (exists repo head_commit w oldname)
            (exists repo head_commit w newname)

    unfoldable pub rename_file : CString → CString → World → OpResult × World
    unfolding get_repo get_commit should_ignore_file check_file_exists get_canonical_path
        do_rename_file gen_new_commit
    rename_file oldname newname w =
        if str_eq oldname newname
        then (success, w)
        else with_repo (rename_in oldname newname w) w (get_repo O.publish w repo_id)

    abbrev or_empty : Option CString → CString
    or_empty none = []
    or_empty (some name) = name

    abbrev was_dir : Option ℕ → Bool
    was_dir none = false
    was_dir (some mode) = is_dir mode

    abbrev delete_text : Deleted → CString
    delete_text del = in_buffer (
        if ltb 1 del.deleted_num
        then codes "Deleted \""
          ++ or_empty del.desc_file
          ++ codes "\" and "
          ++ decimal (del.deleted_num - 1)
          ++ codes " more files"
        else if was_dir del.mode
        then codes "Removed directory \"" ++ or_empty del.desc_file ++ codes "\""
        else codes "Deleted \"" ++ or_empty del.desc_file ++ codes "\"")

    abbrev after_delete : Commit → World → Edited Deleted × Objects → OpResult × World
    after_delete head_commit w (failed, objects) = (general_error, with_objects w objects)
    after_delete head_commit w (unchanged root_id del, objects) = (success, with_objects w objects)
    after_delete head_commit w (changed root_id del, objects) = after_commit repo_id (
        gen_new_commit O.publish (change_of head_commit root_id user) repo_id (delete_text del)
          (with_objects w objects))

    abbrev delete_in : List CString → World → Repo → Commit → OpResult × World
    delete_in filenames w repo head_commit =
        if dir_found (
          get_seafdir_by_path w.objects repo.attributes.version head_commit.root_id
            (get_canonical_path parent_dir))
        then after_delete head_commit w (
            do_del_file (edit_env repo.attributes.version) head_commit.root_id
              (get_canonical_path parent_dir) filenames w.objects)
        else (general_error, w)

    -- On the names that `json_to_file_list` reads.
    unfoldable pub del_file : List CString → World → OpResult × World
    unfolding get_repo get_commit get_seafdir_by_path get_canonical_path do_del_file gen_new_commit
    del_file filenames w = with_repo (delete_in filenames w) w (get_repo O.publish w repo_id)
