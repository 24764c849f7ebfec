-- ===== src/Commit/Publish.antt =====
-- `gen_new_commit` of server/repo-op.c: the new root of a library is published as a commit, merged
-- with the head where that has moved, and the branch is moved by an update that tests the head; that
-- is tried again after a conflict, three times at most.
pub mod Repos
pub mod Attempts
pub mod Ways
pub mod Landing
pub mod Refused
pub mod Uncontended
pub mod Saves
pub mod Stored
use seafile_server.Base.{
  ℕ, zero, suc, Bool, true, false, not, Option, none, some, List, [], ◌∷◌, CString, codes, str_eq,
  ltb, length, if◌then◌else◌,
}
use seafile_server.Fs.{Dirent, Objects, empty_sha1}
use seafile_server.Walk.{three}
use seafile_server.Merge.{MergeEnv, MergeState, Rc, success, failure, out_of_fuel}
use seafile_server.Merge.Trees.{seaf_merge_trees}
use seafile_server.Diff.Renames.{diff_merge_roots}
use seafile_server.Diff.Describe.{diff_results_to_description}
use seafile_server.Edit.Names.{decimal}
use seafile_server.Branch.{
  Branch, BranchState, Trans, branch_new, branch_set_commit, test_and_update_branch,
}
use seafile_server.Commit.{
  no_attributes, Commit, Repo, Commits, commit_new, repo_to_commit, repo_from_commit, get_commit,
  add_commit,
}

-- What the server keeps of its libraries, as other processes see it too: branches, commits, and the
-- directories of the library.
pub record World : Type 0 where
  pub branches : BranchState
  pub commits : Commits
  pub objects : Objects

-- The outside world. `others` and `sleeps` are what other processes do in an attempt, between the
-- reading of the head and the transaction, and while the process sleeps after it; both may depend on
-- all that they see.
pub record PublishEnv : Type 0 where
  pub sha1 : List ℕ → List ℕ
  pub others : ℕ → World → World
  pub sleeps : ℕ → World → World
  pub trans : ℕ → Trans
  pub is_virtual_repo : CString → Bool
  -- the id of the store of a library that is in the database
  pub store_of : CString → Option CString
  pub now : ℕ → ℕ
  pub commit_write_ok : CString → Bool
  -- as for a merge
  pub checksum : ℕ → List Dirent → CString
  pub write_ok : CString → Bool
  pub modifier_mtime : CString → CString → Option (Option CString × ℕ)
  pub merged_at : CString → ℕ
  pub format_time : ℕ → CString

-- What is published: the new root, made from the root of the commit `base`. `depth` bounds the
-- recursion of a merge.
pub record Change : Type 0 where
  pub depth : ℕ
  pub base : Commit
  pub new_root : CString
  pub user : CString
  pub retry_on_conflict : Bool

pub data Refusal : Type 0 where
  invalid_repo add_failed merge_failed concurrent_upload concurrent_update merge_out_of_fuel :
      Refusal

pub data Outcome : Type 0 where
  committed : CString → Outcome
  refused : Refusal → Outcome

abbrev pub creator_of : Option Commit → Option (Option CString)
creator_of none = none
creator_of (some commit) = some (some commit.creator_name)

module _ (E : PublishEnv) where
  abbrev blank_repo : CString → CString → Branch → Repo
  blank_repo id store_id head = record {
    id = id;
    store_id = store_id;
    head = head;
    root_id = [];
    last_modify = 0;
    last_modifier = [];
    attributes = no_attributes;
  }

  abbrev loaded : Repo → Option Commit → Option Repo
  loaded repo none = none
  loaded repo (some commit) = some (repo_from_commit repo commit)

  abbrev with_head : World → CString → Option CString → Option CString → Option Repo
  with_head w id none head = none
  with_head w id (some store_id) none = none
  with_head w id (some store_id) (some commit_id) =
      let head = branch_new (codes "master") id commit_id in
      loaded (blank_repo id store_id head) (get_commit w.commits id head.commit_id)

  -- `seaf_repo_manager_get_repo`, with the row that `get_repo_from_db` selects.
  unfoldable pub get_repo : World → CString → Option Repo
  unfolding branch_new get_commit repo_from_commit
  get_repo w id =
      if ltb (length id) 37
      then with_head w id (E.store_of id) (w.branches.heads id (codes "master"))
      else none

  -- The options of the merge: three ways, and the head of the other side.
  abbrev pub merge_env : World → Repo → CString → MergeEnv
  merge_env w repo remote_head = record {
    n = 3;
    do_merge = true;
    version = repo.attributes.version;
    CallbackData = Unit;
    callback = λ basedir dents x. (true, x);
    checksum = E.checksum;
    write_ok = E.write_ok;
    modifier_mtime = E.modifier_mtime remote_head;
    head_creator = creator_of (get_commit w.commits repo.id remote_head);
    now = E.merged_at;
    format_time = E.format_time;
  }

  abbrev pub merge_start : (M : MergeEnv) → M.CallbackData → Objects → MergeState M
  merge_start M x objects = record {
    conflict = false;
    visit_dirs = 0;
    merged_tree_root = [];
    data_of_callback = x;
    objects = objects;
  }

  module _ (change : Change) where
    unfoldable pub gen_merge_description :
        Repo → Objects → CString → CString → CString → Option CString
    unfolding diff_merge_roots diff_results_to_description
    gen_merge_description repo objects merged_root p1_root p2_root =
        diff_results_to_description decimal (
          diff_merge_roots change.depth objects repo.attributes.version merged_root p1_root p2_root)

    abbrev or_auto : Option CString → CString
    or_auto none = codes "Auto merge by system"
    or_auto (some desc) = desc

    abbrev saved_commit : World → Commit → Bool × Commits → (Option Refusal × World) × Commit
    saved_commit w commit (true, commits) = ((none, record w { commits = commits }), commit)
    saved_commit w commit (false, commits) = ((some add_failed, w), commit)

    unfoldable pub save_commit : World → Commit → (Option Refusal × World) × Commit
    unfolding add_commit
    save_commit w commit =
        saved_commit w commit (add_commit (E.commit_write_ok commit.commit_id) commit w.commits)

    -- The commit of a merge, whose parents are the head and the new commit.
    unfoldable pub merged_commit : Repo → Commit → Commit → Objects → Bool → CString → ℕ → Commit
    unfolding gen_merge_description commit_new repo_to_commit
    merged_commit repo current_head new_commit objects conflict merged_root time =
        let desc =
          if conflict
          then or_auto
              (gen_merge_description repo objects merged_root current_head.root_id change.new_root)
          else codes "Auto merge by system" in
        let made = commit_new E.sha1 time repo.id merged_root change.user desc in
        repo_to_commit repo record made {
          parent_id = some current_head.commit_id;
          second_parent_id = some new_commit.commit_id;
          new_merge = true;
          conflict = conflict;
        }

    abbrev after_merge :
        (M : MergeEnv)
        → World
        → Repo
        → Commit
        → Commit
        → ℕ
        → Rc × MergeState M
        → (Option Refusal × World) × Commit
    after_merge M w repo current_head new_commit time (failure, s) =
        ((some merge_failed, record w { objects = s.objects }), new_commit)
    after_merge M w repo current_head new_commit time (out_of_fuel, s) =
        ((some merge_out_of_fuel, record w { objects = s.objects }), new_commit)
    after_merge M w repo current_head new_commit time (success, s) =
        save_commit (record w { objects = s.objects })
          (merged_commit repo current_head new_commit s.objects s.conflict s.merged_tree_root time)

    -- The commit for the branch to move to, or why there is none.
    unfoldable pub merge_with_head :
        World → Repo → Commit → Commit → ℕ → (Option Refusal × World) × Commit
    unfolding save_commit merged_commit seaf_merge_trees
    merge_with_head w repo current_head new_commit time =
        if str_eq change.base.commit_id current_head.commit_id
        then ((none, w), new_commit)
        else after_merge (merge_env w repo new_commit.commit_id) w repo current_head new_commit time
            (seaf_merge_trees (merge_env w repo new_commit.commit_id) change.depth
              (three change.base.root_id current_head.root_id change.new_root)
              (merge_start (merge_env w repo new_commit.commit_id) tt w.objects))

    abbrev set_branches : World → BranchState → World
    set_branches w branches = record w { branches = branches }

    -- `next` is the retry, with the library loaded anew.
    abbrev after_update :
        ℕ → (World → Outcome × World) → Commit → World → Bool × BranchState → Outcome × World
    after_update attempt next commit w (true, branches) =
        (committed commit.commit_id, set_branches w branches)
    after_update attempt next commit w (false, branches) =
        if change.retry_on_conflict
        then next (set_branches w branches)
        else (refused concurrent_upload, set_branches w branches)

    abbrev pub update_head :
        ℕ → (World → Outcome × World) → Repo → Commit → Commit → World → Outcome × World
    update_head attempt next repo current_head commit w = after_update attempt next commit w (
        test_and_update_branch E.is_virtual_repo (E.trans attempt)
          (branch_set_commit repo.head commit.commit_id) current_head.commit_id w.branches)

    abbrev after_commit :
        ℕ
        → (World → Outcome × World)
        → Repo
        → Commit
        → (Option Refusal × World) × Commit
        → Outcome × World
    after_commit attempt next repo current_head ((some why, w), commit) = (refused why, w)
    after_commit attempt next repo current_head ((none, w), commit) =
        update_head attempt next repo current_head commit (E.others attempt w)

    abbrev with_current :
        ℕ → (World → Outcome × World) → Repo → Commit → World → Option Commit → Outcome × World
    with_current attempt next repo new_commit w none = (refused invalid_repo, w)
    with_current attempt next repo new_commit w (some current_head) =
        after_commit attempt next repo current_head
          (merge_with_head w repo current_head new_commit (E.now (suc attempt)))

    abbrev in_repo : (Repo → Outcome × World) → World → Option Repo → Outcome × World
    in_repo next w none = (refused invalid_repo, w)
    in_repo next w (some repo) = next repo

    -- From the label `retry`, with the number of retries that are left.
    unfoldable pub attempts : ℕ → ℕ → CString → Commit → Repo → World → Outcome × World
    unfolding merge_with_head test_and_update_branch branch_set_commit get_repo
    attempts zero attempt repo_id new_commit repo w =
        with_current attempt (λ w'. (refused concurrent_update, w')) repo new_commit w
          (get_commit w.commits repo.id repo.head.commit_id)
    attempts (suc left) attempt repo_id new_commit repo w =
        with_current attempt
          (λ w1.
            let w2 = E.sleeps attempt w1 in
            in_repo (λ repo'. attempts left (suc attempt) repo_id new_commit repo' w2) w2
              (get_repo w2 repo_id))
          repo new_commit w (get_commit w.commits repo.id repo.head.commit_id)

    -- The retry, with the number of retries left after it.
    abbrev pub again : ℕ → ℕ → CString → Commit → World → Outcome × World
    again left attempt repo_id new_commit w1 =
        in_repo
          (λ repo'. attempts left (suc attempt) repo_id new_commit repo' (E.sleeps attempt w1))
          (E.sleeps attempt w1) (get_repo (E.sleeps attempt w1) repo_id)

    -- MAX_RETRY_COUNT
    abbrev pub max_retry_count : ℕ
    max_retry_count = 3

    -- The commit of the new root.
    unfoldable pub new_commit_of : Repo → CString → Commit
    unfolding commit_new repo_to_commit
    new_commit_of repo desc =
        repo_to_commit repo
          record (commit_new E.sha1 (E.now 0) repo.id change.new_root change.user desc) {
            parent_id = some change.base.commit_id;
          }

    abbrev start : CString → Repo → (Option Refusal × World) × Commit → Outcome × World
    start repo_id repo ((some why, w), commit) = (refused why, w)
    start repo_id repo ((none, w), commit) = attempts max_retry_count 0 repo_id commit repo w

    unfoldable pub gen_new_commit : CString → CString → World → Outcome × World
    unfolding new_commit_of attempts save_commit get_repo
    gen_new_commit repo_id desc w =
        in_repo (λ repo. start repo_id repo (save_commit w (new_commit_of repo desc))) w
          (get_repo w repo_id)
