-- ===== src/Commit/Publish/Refused.antt =====
-- `gen_new_commit` of server/repo-op.c where it fails, and where nobody is in its way.
use mathlib.Core.Path.{subst}
use seafile_server.Base.{
  ℕ, zero, suc, ◌≡◌, refl, sym, Bool, true, false, Option, none, some, CString, if_rule, str_eq,
}
use seafile_server.Merge.{MergeEnv, MergeState, Rc, success, failure, out_of_fuel}
use seafile_server.Branch.{BranchState, branch_set_commit, test_and_update_branch}
use seafile_server.Branch.Swap.{test_and_update_branch_refuses}
use seafile_server.Commit.{Commit, Repo, Commits, get_commit}
use seafile_server.Commit.Publish.{
  World, PublishEnv, Change, Refusal, concurrent_upload, concurrent_update, Outcome, refused,
  get_repo, save_commit, saved_commit, after_merge, merge_with_head, set_branches, after_update,
  after_commit, with_current, in_repo, attempts, again, new_commit_of, start, gen_new_commit,
}

module _ (E : PublishEnv) (change : Change) where
  saved_commit-branches :
      (w : World) (c : Commit) (r : Bool × Commits)
      → (saved_commit E change w c r).0.1.branches ≡ w.branches
  saved_commit-branches w c (true, commits) = refl
  saved_commit-branches w c (false, commits) = refl

  save_commit-branches :
      (w : World) (c : Commit) → (save_commit E change w c).0.1.branches ≡ w.branches
  unfolding save_commit
  save_commit-branches w c = saved_commit-branches w c _

  after_merge-branches :
      (M : MergeEnv) (w : World) (repo : Repo) (current_head new_commit : Commit) (time : ℕ)
      (r : Rc × MergeState M)
      → (after_merge E change M w repo current_head new_commit time r).0.1.branches ≡ w.branches
  after_merge-branches M w repo current_head new_commit time (failure, s) = refl
  after_merge-branches M w repo current_head new_commit time (out_of_fuel, s) = refl
  after_merge-branches M w repo current_head new_commit time (success, s) =
      save_commit-branches (record w { objects = s.objects }) _

  merge_with_head-branches :
      (w : World) (repo : Repo) (current_head new_commit : Commit) (time : ℕ)
      → (merge_with_head E change w repo current_head new_commit time).0.1.branches ≡ w.branches
  unfolding merge_with_head
  merge_with_head-branches w repo current_head new_commit time =
      if_rule (λ (x : (Option Refusal × World) × Commit). x.0.1.branches ≡ w.branches)
        (str_eq change.base.commit_id current_head.commit_id) ((none, w), new_commit) _ refl
        (after_merge-branches _ w repo current_head new_commit time _)

  module _ (P : BranchState → Type 0)
      (others_keep : (k : ℕ) (w : World) → P w.branches → P (E.others k w).branches)
      (sleeps_keep : (k : ℕ) (w : World) → P w.branches → P (E.sleeps k w).branches)
      (why : Refusal) where
    -- A refusal leaves the branches as they are.
    abbrev Leaves : Outcome × World → Type 0
    Leaves x = x.0 ≡ refused why → P x.1.branches

    after_update-Leaves :
        (attempt : ℕ) (next : World → Outcome × World) (commit : Commit) (w : World)
        (r : Bool × BranchState)
        → (r.0 ≡ false → P r.1)
        → ((w' : World) → P w'.branches → Leaves (next w'))
        → Leaves (after_update E change attempt next commit w r)
    after_update-Leaves attempt next commit w (true, branches) now later = λ h. cc
    after_update-Leaves attempt next commit w (false, branches) now later =
        if_rule Leaves change.retry_on_conflict _
          (refused concurrent_upload, set_branches E change w branches) (later _ (now refl))
          (λ h. now refl)

    after_commit-Leaves :
        (attempt : ℕ) (next : World → Outcome × World) (repo : Repo) (current_head : Commit)
        (r : (Option Refusal × World) × Commit)
        → P r.0.1.branches
        → ((w' : World) → P w'.branches → Leaves (next w'))
        → Leaves (after_commit E change attempt next repo current_head r)
    after_commit-Leaves attempt next repo current_head ((some error, w), commit) now later =
        λ h. now
    after_commit-Leaves attempt next repo current_head ((none, w), commit) now later =
        let before = E.others attempt w in
        let branch = branch_set_commit repo.head commit.commit_id in
        after_update-Leaves attempt next commit before
          (test_and_update_branch E.is_virtual_repo (E.trans attempt) branch current_head.commit_id
            before.branches)
          (λ no_update.
            subst P
              (sym (
                test_and_update_branch_refuses E.is_virtual_repo (E.trans attempt) branch
                  current_head.commit_id before.branches no_update))
              (others_keep attempt w now))
          later

    with_current-Leaves :
        (attempt : ℕ) (next : World → Outcome × World) (repo : Repo) (new_commit : Commit)
        (w : World) (o : Option Commit)
        → P w.branches
        → ((w' : World) → P w'.branches → Leaves (next w'))
        → Leaves (with_current E change attempt next repo new_commit w o)
    with_current-Leaves attempt next repo new_commit w none now later = λ h. now
    with_current-Leaves attempt next repo new_commit w (some current_head) now later =
        after_commit-Leaves attempt next repo current_head _
          (subst P
            (sym (merge_with_head-branches w repo current_head new_commit (E.now (suc attempt))))
            now)
          later

    in_repo-Leaves :
        (next : Repo → Outcome × World) (w : World) (o : Option Repo)
        → P w.branches
        → ((repo : Repo) → Leaves (next repo))
        → Leaves (in_repo E change next w o)
    in_repo-Leaves next w none now go = λ h. now
    in_repo-Leaves next w (some repo) now go = go repo

    attempts-Leaves :
        (left attempt : ℕ) (repo_id : CString) (new_commit : Commit) (repo : Repo) (w : World)
        → P w.branches
        → Leaves (attempts E change left attempt repo_id new_commit repo w)
    unfolding attempts
    attempts-Leaves zero attempt repo_id new_commit repo w now =
        with_current-Leaves attempt (λ w'. (refused concurrent_update, w')) repo new_commit w _ now
          (λ w' held h. held)
    attempts-Leaves (suc left) attempt repo_id new_commit repo w now =
        with_current-Leaves attempt (again E change left attempt repo_id new_commit) repo new_commit
          w (get_commit w.commits repo.id repo.head.commit_id) now
          (λ w1 held.
            let held' = sleeps_keep attempt w1 held in
            in_repo-Leaves
              (λ repo'.
                attempts E change left (suc attempt) repo_id new_commit repo' (E.sleeps attempt w1))
              (E.sleeps attempt w1) (get_repo E (E.sleeps attempt w1) repo_id) held'
              (λ repo'.
                attempts-Leaves left (suc attempt) repo_id new_commit repo' (E.sleeps attempt w1)
                  held'))

    start-Leaves :
        (repo_id : CString) (repo : Repo) (r : (Option Refusal × World) × Commit)
        → P r.0.1.branches
        → Leaves (start E change repo_id repo r)
    start-Leaves repo_id repo ((some error, w), commit) now = λ h. now
    start-Leaves repo_id repo ((none, w), commit) now =
        attempts-Leaves 3 0 repo_id commit repo w now

    -- Where gen_new_commit reports an error, it has changed no branch: what holds of the
    -- branches, and is kept by what other processes do in an attempt and during a sleep, holds of
    -- them after it.
    pub gen_new_commit_refused :
        (repo_id desc : CString) (w : World)
        → P w.branches
        → (gen_new_commit E change repo_id desc w).0 ≡ refused why
        → P (gen_new_commit E change repo_id desc w).1.branches
    unfolding gen_new_commit
    gen_new_commit_refused repo_id desc w now =
        in_repo-Leaves
          (λ repo.
            start E change repo_id repo (save_commit E change w (new_commit_of E change repo desc)))
          w (get_repo E w repo_id) now
          (λ repo.
            start-Leaves repo_id repo (save_commit E change w (new_commit_of E change repo desc))
              (subst P (sym (save_commit-branches w (new_commit_of E change repo desc))) now))
