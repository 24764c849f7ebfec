-- ===== src/Commit/Publish/Attempts.antt =====
-- The attempts of a run of `gen_new_commit` of server/repo-op.c, and the one that moves the branch.
use seafile_server.Base.{ℕ, suc, ◌≤◌, ◌≡◌, ◌⊎◌, Bool, true, false, none, some, CString, codes, take}
use seafile_server.Walk.{three}
use seafile_server.Merge.{MergeState, Rc, success}
use seafile_server.Merge.Trees.{seaf_merge_trees}
use seafile_server.Branch.{BranchState, put_row, branch_set_commit, test_and_update_branch}
use seafile_server.Commit.{Commit, Repo, get_commit}
use seafile_server.Commit.Publish.{
  World, PublishEnv, Change, get_repo, save_commit, merge_with_head, set_branches, merge_env,
  merge_start, max_retry_count,
}

module _ (E : PublishEnv) (change : Change) where
  -- The merge of an attempt, which reads the head `current_head` of the library.
  abbrev pub merge_result :
      (v : World) (repo : Repo) (current_head new_commit : Commit)
      → Rc × MergeState (merge_env E v repo new_commit.commit_id)
  merge_result v repo current_head new_commit =
      seaf_merge_trees (merge_env E v repo new_commit.commit_id) change.depth
        (three change.base.root_id current_head.root_id change.new_root)
        (merge_start E (merge_env E v repo new_commit.commit_id) tt v.objects)

  -- The commit for the branch to move to is the new one, where its base is the head that was read, or
  -- else the merge of its root with the root of that head.
  abbrev pub Joins : World → Repo → Commit → Commit → Commit → Type 0
  Joins v repo current_head new_commit commit =
      ((change.base.commit_id ≡ current_head.commit_id) × (commit ≡ new_commit))
      ⊎ ((commit.second_parent_id ≡ some new_commit.commit_id)
          × ((merge_result v repo current_head new_commit).0 ≡ success)
          × (commit.root_id
              ≡ take 40 (merge_result v repo current_head new_commit).1.merged_tree_root))

  abbrev pub Fits : World → Repo → Commit → Commit → Commit → Type 0
  Fits v repo current_head new_commit commit =
      (commit.parent_id ≡ some current_head.commit_id) × Joins v repo current_head new_commit commit

  module _ (new_commit : Commit) where
    -- An attempt that came as far as the transaction: from a world it read the head, made the commit,
    -- and updated the branch in the table as other processes left it.
    pub record Tried (attempt : ℕ) (repo : Repo) (v : World) : Type 0 where
      pub current_head : Commit
      pub commit : Commit
      pub saved : World
      pub updated : Bool
      pub branches : BranchState
      pub is_current : get_commit v.commits repo.id repo.head.commit_id ≡ some current_head
      pub merges :
          merge_with_head E change v repo current_head new_commit (E.now (suc attempt))
          ≡ ((none, saved), commit)
      pub updates :
          test_and_update_branch E.is_virtual_repo
            (E.trans attempt)
            (branch_set_commit repo.head commit.commit_id)
            current_head.commit_id
            (E.others attempt saved).branches
          ≡ (updated, branches)

    -- The world that an attempt leaves.
    abbrev pub left_by : (attempt : ℕ) (repo : Repo) (v : World) → Tried attempt repo v → World
    left_by attempt repo v t = set_branches E change (E.others attempt t.saved) t.branches

    -- The worlds in which the attempts of a run begin, with the library as it was read: the first when
    -- the new commit is saved, each other after an attempt that did not update the branch.
    pub data Reaches (repo_id : CString) (w : World) : ℕ → Repo → World → Type 0 where
      first_attempt :
          {repo : Repo} {v : World}
          → get_repo E w repo_id ≡ some repo
          → save_commit E change w new_commit ≡ ((none, v), new_commit)
          → Reaches repo_id w 0 repo v
      next_attempt :
          {k : ℕ} {repo repo' : Repo} {v : World} (t : Tried k repo v)
          → Reaches repo_id w k repo v
          → t.updated ≡ false
          → change.retry_on_conflict ≡ true
          → get_repo E (E.sleeps k (left_by k repo v t)) repo_id ≡ some repo'
          → Reaches repo_id w (suc k) repo' (E.sleeps k (left_by k repo v t))

    -- The run ended with an attempt that has moved the branch from the head that it had read.
    pub record Landed (repo_id : CString) (w : World) (id : CString) (after : World) : Type 0 where
      pub attempt : ℕ
      pub repo : Repo
      pub begins : World
      pub reached : Reaches repo_id w attempt repo begins
      pub in_time : attempt ≤ max_retry_count E change
      pub tried : Tried attempt repo begins
      pub did_update : tried.updated ≡ true
      pub ends : after ≡ left_by attempt repo begins tried
      pub is_commit : tried.commit.commit_id ≡ id
      pub fits : Fits begins repo tried.current_head new_commit tried.commit
      pub head : CString
      pub was_head :
          (E.others attempt tried.saved).branches.heads (take 36 repo_id) (codes "master")
          ≡ some head
      pub is_head : take 40 head ≡ tried.current_head.commit_id
      pub moved :
          after.branches.heads
          ≡ put_row
              (record { name = codes "master"; repo_id = take 36 repo_id; commit_id = take 40 id })
              (E.others attempt tried.saved).branches.heads
