-- ===== src/Ops/Lands.antt =====
-- `seaf_repo_manager_rename_file` of server/repo-op.c where it succeeds.
use mathlib.Core.Path.{subst}
use seafile_server.Base.{◌≡◌, ◌≢◌, refl, ap, ◌∙◌, false, none, some, CString}
use seafile_server.Fs.{Dirent}
use seafile_server.Edit.Recursions.{do_rename_file}
use seafile_server.Commit.{Commit, Repo, get_commit}
use seafile_server.Commit.Publish.{
  World, Refusal, Outcome, committed, refused, get_repo, gen_new_commit, new_commit_of,
}
use seafile_server.Commit.Publish.Attempts.{Landed}
use seafile_server.Commit.Publish.Landing.{gen_new_commit_lands}
use seafile_server.Ops.Ways.{root_of, after_commit-rule}
use seafile_server.Ops.{
  OpsEnv, success, get_canonical_path, should_ignore_file, edit_env, change_of, after_commit,
  with_objects, exists,
}

module _ (O : OpsEnv) (repo_id parent_dir user : CString) where
  -- A commit on the base, of the root, has landed, and virtual libraries are merged after it.
  pub record Published (base : Commit) (root_id : CString) (w after : World) : Type 0 where
    pub desc : CString
    pub id : CString
    pub repo : Repo
    pub published : World
    pub loads : get_repo O.publish w repo_id ≡ some repo
    pub publishes :
        gen_new_commit O.publish (change_of O base root_id user) repo_id desc w
        ≡ (committed id, published)
    pub lands :
        Landed O.publish
          (change_of O base root_id user)
          (new_commit_of O.publish (change_of O base root_id user) repo desc)
          repo_id
          w
          id
          published
    pub ends : after ≡ O.merge_virtual_repo repo_id published

  pub record Renamed (oldname newname : CString) (w after : World) : Type 0 where
    pub repo : Repo
    pub head_commit : Commit
    pub old : Dirent
    pub root_id : CString
    pub is_repo : get_repo O.publish w repo_id ≡ some repo
    pub is_head : get_commit w.commits repo.id repo.head.commit_id ≡ some head_commit
    pub is_allowed : should_ignore_file O newname ≡ false
    pub old_exists : exists O repo_id parent_dir user repo head_commit w oldname ≡ some old
    pub new_is_free : exists O repo_id parent_dir user repo head_commit w newname ≡ none
    pub edits :
        root_of
          (do_rename_file
            (edit_env O repo.attributes.version)
            head_commit.root_id
            (get_canonical_path parent_dir)
            oldname
            newname
            w.objects).0
        ≡ some root_id
    pub publishes :
        Published head_commit root_id
          (with_objects O w
            (do_rename_file
              (edit_env O repo.attributes.version)
              head_commit.root_id
              (get_canonical_path parent_dir)
              oldname
              newname
              w.objects).1)
          after

  refused_fails :
      (why : Refusal) (u : World) → (after_commit O repo_id (refused why, u)).0 ≢ success
  refused_fails why u = λ e. cc

  landed_publishes :
      (base : Commit) (root_id desc id : CString) (w u : World)
      → gen_new_commit O.publish (change_of O base root_id user) repo_id desc w ≡ (committed id, u)
      → Published base root_id w (O.merge_virtual_repo repo_id u)
  landed_publishes base root_id desc id w u e =
      let (repo, is_loaded, landed) =
        gen_new_commit_lands O.publish (change_of O base root_id user) repo_id desc id w
          (ap (λ (x : Outcome × World). x.0) e) in
      record {
        desc = desc;
        id = id;
        repo = repo;
        published = u;
        loads = is_loaded;
        publishes = e;
        lands =
            subst
              (λ (x : Outcome × World).
                Landed O.publish (change_of O base root_id user)
                  (new_commit_of O.publish (change_of O base root_id user) repo desc) repo_id w id
                  x.1)
              e landed;
        ends = refl;
      }

  published :
      (base : Commit) (root_id desc : CString) (w : World) (r : Outcome × World)
      → gen_new_commit O.publish (change_of O base root_id user) repo_id desc w ≡ r
      → (after_commit O repo_id r).0 ≡ success
      → Published base root_id w (after_commit O repo_id r).1
  published base root_id desc w r e =
      after_commit-rule O repo_id parent_dir user
        (λ x. x.0 ≡ success → Published base root_id w x.1) r
        (λ why u fails. absurd (refused_fails why u fails))
        (λ id u ok done. landed_publishes base root_id desc id w u (e ∙ ok))
