-- ===== src/Ops/Ways.antt =====
-- The ways out of the operations of server/repo-op.c: what holds on each of them holds of the result.
use seafile_server.Base.{◌≡◌, refl, false, Option, none, some, CString, if_split}
use seafile_server.Fs.{Dirent, Objects}
use seafile_server.Edit.Walk.{Edited, failed, unchanged, changed}
use seafile_server.Edit.Recursions.{do_rename_file}
use seafile_server.Commit.{Commit, Repo, get_commit}
use seafile_server.Commit.Publish.{World, Refusal, Outcome, committed, refused, gen_new_commit}
use seafile_server.Ops.{
  OpsEnv, OpResult, bad_args, get_canonical_path, should_ignore_file, edit_env, change_of,
  after_commit, with_objects, with_commit, with_repo, after_rename, checked_rename, exists,
  rename_in, rename_text,
}

-- The id that an edit returns.
abbrev pub root_of : {A : Type 0} → Edited A → Option CString
root_of failed = none
root_of (unchanged id a) = some id
root_of (changed id a) = some id

module _ (O : OpsEnv) (repo_id parent_dir user : CString) where
  -- What holds after a commit, from what holds after each outcome.
  pub after_commit-rule :
      (P : OpResult × World → Type 0) (r : Outcome × World)
      → ((why : Refusal) (u : World) → P (after_commit O repo_id (refused why, u)))
      → ((id : CString) (u : World)
          → r ≡ (committed id, u)
          → P (after_commit O repo_id (committed id, u)))
      → P (after_commit O repo_id r)
  after_commit-rule P (refused why, u) stop go = stop why u
  after_commit-rule P (committed id, u) stop go = go id u refl

  pub after_rename-rule :
      (P : OpResult × World → Type 0) (head_commit : Commit) (text : CString) (w : World)
      (r : Edited (Unit {0}) × Objects)
      → P (bad_args, with_objects O w r.1)
      → ((root_id : CString)
          → root_of r.0 ≡ some root_id
          → P (
              after_commit O repo_id (
                gen_new_commit O.publish
                  (change_of O head_commit root_id user)
                  repo_id
                  text
                  (with_objects O w r.1))))
      → P (after_rename O repo_id parent_dir user head_commit text w r)
  after_rename-rule P head_commit text w (failed, objects) stop go = stop
  after_rename-rule P head_commit text w (unchanged root_id x, objects) stop go = go root_id refl
  after_rename-rule P head_commit text w (changed root_id x, objects) stop go = go root_id refl

  pub checked_rename-rule :
      (P : OpResult × World → Type 0) (repo : Repo) (head_commit : Commit)
      (oldname newname : CString) (w : World) (old new : Option Dirent)
      → P (bad_args, w)
      → ((dent : Dirent)
          → old ≡ some dent
          → new ≡ none
          → P (
              after_rename O repo_id parent_dir user head_commit
                (rename_text O repo_id parent_dir user oldname dent)
                w
                (do_rename_file
                  (edit_env O repo.attributes.version)
                  head_commit.root_id
                  (get_canonical_path parent_dir)
                  oldname
                  newname
                  w.objects)))
      → P (checked_rename O repo_id parent_dir user repo head_commit oldname newname w old new)
  checked_rename-rule P repo head_commit oldname newname w none new stop go = stop
  checked_rename-rule P repo head_commit oldname newname w (some old) (some new) stop go = stop
  checked_rename-rule P repo head_commit oldname newname w (some old) none stop go =
      go old refl refl

  pub with_repo-rule :
      (P : OpResult × World → Type 0) (next : Repo → Commit → OpResult × World) (w : World)
      (o : Option Repo)
      → P (bad_args, w)
      → ((repo : Repo)
          → o ≡ some repo
          → P (with_commit O next w repo (get_commit w.commits repo.id repo.head.commit_id)))
      → P (with_repo O next w o)
  with_repo-rule P next w none stop go = stop
  with_repo-rule P next w (some repo) stop go = go repo refl

  pub with_commit-rule :
      (P : OpResult × World → Type 0) (next : Repo → Commit → OpResult × World) (w : World)
      (repo : Repo) (o : Option Commit)
      → P (bad_args, w)
      → ((head_commit : Commit) → o ≡ some head_commit → P (next repo head_commit))
      → P (with_commit O next w repo o)
  with_commit-rule P next w repo none stop go = stop
  with_commit-rule P next w repo (some head_commit) stop go = go head_commit refl

  pub rename_in-rule :
      (P : OpResult × World → Type 0) (oldname newname : CString) (w : World) (repo : Repo)
      (head_commit : Commit)
      → P (bad_args, w)
      → (should_ignore_file O newname ≡ false
          → P (
              checked_rename O repo_id parent_dir user repo head_commit oldname newname w
                (exists O repo_id parent_dir user repo head_commit w oldname)
                (exists O repo_id parent_dir user repo head_commit w newname)))
      → P (rename_in O repo_id parent_dir user oldname newname w repo head_commit)
  rename_in-rule P oldname newname w repo head_commit stop go =
      if_split P (should_ignore_file O newname) _ _ (λ bad. stop) go
