-- ===== src/Commit/Publish/Uncontended.antt =====
-- `gen_new_commit` of server/repo-op.c where nobody else moves the branch.
use seafile_server.Base.{
  ℕ, suc, ◌≡◌, refl, sym, ap, ◌∙◌, Bool, true, Option, none, some, CString, str_eq_iff,
}
use seafile_server.Branch.{BranchState, branch_set_commit, get_commit_id}
use seafile_server.Branch.Swap.{test_and_update_branch-success, works}
use seafile_server.Commit.{Commit, Repo, get_commit, add_commit}
use seafile_server.Commit.Stores.{load_commit_id, get_commit-keeps, add_commit_ok}
use seafile_server.Commit.Publish.Repos.{get_repo-Read, Read-head}
use seafile_server.Commit.Publish.{
  World, PublishEnv, Change, Refusal, Outcome, committed, get_repo, save_commit, saved_commit,
  merge_with_head, after_update, update_head, after_commit, with_current, in_repo, attempts, again,
  new_commit_of, start, gen_new_commit,
}

module _ (E : PublishEnv) where
  module _ (change : Change) where
    save_commit_ok :
        (w : World) (c : Commit)
        → E.commit_write_ok c.commit_id ≡ true
        → save_commit E change w c
          ≡ ((none, record w { commits = (add_commit true c w.commits).1 }), c)
    unfolding save_commit
    save_commit_ok w c ok =
        ap (λ (b : Bool). saved_commit E change w c (add_commit b c w.commits)) ok
        ∙ ap (saved_commit E change w c) (add_commit_ok c w.commits)

    merge_with_head-at_head :
        (w : World) (repo : Repo) (current_head new_commit : Commit) (time : ℕ)
        → change.base.commit_id ≡ current_head.commit_id
        → merge_with_head E change w repo current_head new_commit time ≡ ((none, w), new_commit)
    unfolding merge_with_head
    merge_with_head-at_head w repo current_head new_commit time h =
        rw ((str_eq_iff change.base.commit_id current_head.commit_id).1 h) refl

    update_head_succeeds :
        (attempt : ℕ) (next : World → Outcome × World) (repo : Repo) (current_head commit : Commit)
        (v : World)
        → works (E.trans attempt) ≡ true
        → get_commit_id (v.branches.heads repo.head.repo_id repo.head.name) ≡ current_head.commit_id
        → (update_head E change attempt next repo current_head commit v).0
          ≡ committed commit.commit_id
    unfolding branch_set_commit
    update_head_succeeds attempt next repo current_head commit v trans head =
        ap (λ (r : Bool × BranchState). (after_update E change attempt next commit v r).0)
          (test_and_update_branch-success E.is_virtual_repo (E.trans attempt)
            (branch_set_commit repo.head commit.commit_id) current_head.commit_id v.branches trans
            head)

    attempts_uncontended :
        (left attempt : ℕ) (repo_id : CString) (new_commit current_head : Commit) (repo : Repo)
        (w : World)
        → get_commit w.commits repo.id repo.head.commit_id ≡ some current_head
        → change.base.commit_id ≡ current_head.commit_id
        → works (E.trans attempt) ≡ true
        → ((v : World) → (E.others attempt v).branches ≡ v.branches)
        → get_commit_id (w.branches.heads repo.head.repo_id repo.head.name) ≡ current_head.commit_id
        → (attempts E change (suc left) attempt repo_id new_commit repo w).0
          ≡ committed new_commit.commit_id
    unfolding attempts
    attempts_uncontended left attempt repo_id new_commit current_head repo w found at_head trans
          quiet head =
        ap
          (λ (o : Option Commit).
            (with_current E change attempt (again E change left attempt repo_id new_commit) repo
              new_commit w o).0)
          found
        ∙ ap
            (λ (x : (Option Refusal × World) × Commit).
              (after_commit E change attempt (again E change left attempt repo_id new_commit) repo
                current_head x).0)
            (merge_with_head-at_head w repo current_head new_commit (E.now (suc attempt)) at_head)
        ∙ update_head_succeeds attempt (again E change left attempt repo_id new_commit) repo
            current_head new_commit (E.others attempt w) trans
            (ap (λ (b : BranchState). get_commit_id (b.heads repo.head.repo_id repo.head.name))
                (quiet w)
              ∙ head)

    -- Where the library can be loaded, its head is the base, the new commit can be written, the
    -- database does the first transaction and no other process changes a branch before it,
    -- gen_new_commit publishes the commit of the new root itself.
    pub gen_new_commit_uncontended :
        (repo_id desc : CString) (w : World) (repo : Repo)
        → get_repo E w repo_id ≡ some repo
        → change.base.commit_id ≡ repo.head.commit_id
        → E.commit_write_ok (new_commit_of E change repo desc).commit_id ≡ true
        → works (E.trans 0) ≡ true
        → ((v : World) → (E.others 0 v).branches ≡ v.branches)
        → (gen_new_commit E change repo_id desc w).0
          ≡ committed (new_commit_of E change repo desc).commit_id
    unfolding gen_new_commit
    gen_new_commit_uncontended repo_id desc w repo loads at_head write_ok trans quiet =
        let read = get_repo-Read E w repo_id repo loads in
        let new_commit = new_commit_of E change repo desc in
        let commits = (add_commit true new_commit w.commits).1 in
        let found =
          get_commit-keeps true new_commit w.commits repo_id repo.head.commit_id read.found in
        let same_id = (load_commit_id w.commits repo_id repo.head.commit_id read.found).0 in
        ap
          (λ (o : Option Repo).
            (in_repo E change
              (λ repo.
                start E change repo_id repo
                  (save_commit E change w (new_commit_of E change repo desc)))
              w o).0)
          loads
        ∙ ap (λ (x : (Option Refusal × World) × Commit). (start E change repo_id repo x).0)
            (save_commit_ok w new_commit write_ok)
        ∙ attempts_uncontended 2 0 repo_id new_commit read.current repo
            (record w { commits = commits })
            (ap (λ (x : CString). get_commit commits x repo.head.commit_id) read.own_id ∙ found)
            (at_head ∙ sym same_id) trans quiet (Read-head w repo_id repo read ∙ sym same_id)
