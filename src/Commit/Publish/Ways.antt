-- ===== src/Commit/Publish/Ways.antt =====
-- The ways out of `gen_new_commit` of server/repo-op.c: what holds on each of them holds of the
-- outcome.
use seafile_server.Base.{
  ℕ, zero, suc, ◌+◌, ◌≤◌, ◌≡◌, refl, ◌∙◌, Bool, true, false, Option, none, some, CString, if_split,
  arith,
}
use seafile_server.Branch.{BranchState, branch_set_commit, test_and_update_branch}
use seafile_server.Commit.{Commit, Repo, get_commit}
use seafile_server.Commit.Publish.{
  World, PublishEnv, Change, Refusal, concurrent_upload, concurrent_update, invalid_repo, Outcome,
  committed, refused, get_repo, merge_with_head, set_branches, after_update, update_head,
  after_commit, with_current, in_repo, attempts, start, again,
}
use seafile_server.Commit.Publish.Attempts.{Tried, left_by, Reaches, next_attempt}

module _ (E : PublishEnv) (change : Change) where
  -- What holds on each way out of an attempt.
  after_update-rule :
      (P : Outcome × World → Type 0) (k : ℕ) (next : World → Outcome × World) (commit : Commit)
      (w : World) (r : Bool × BranchState)
      → (r.0 ≡ true → P (committed commit.commit_id, set_branches E change w r.1))
      → (r.0 ≡ false → change.retry_on_conflict ≡ true → P (next (set_branches E change w r.1)))
      → (r.0 ≡ false → P (refused concurrent_upload, set_branches E change w r.1))
      → P (after_update E change k next commit w r)
  after_update-rule P k next commit w (true, branches) done again stop = done refl
  after_update-rule P k next commit w (false, branches) done again stop =
      if_split P change.retry_on_conflict _ _ (λ retry. again refl retry) (λ e. stop refl)

  after_commit-rule :
      (P : Outcome × World → Type 0) (k : ℕ) (next : World → Outcome × World) (repo : Repo)
      (current_head : Commit) (r : (Option Refusal × World) × Commit)
      → ((why : Refusal) (u : World) → P (refused why, u))
      → ((u : World) (commit : Commit)
          → r ≡ ((none, u), commit)
          → P (update_head E change k next repo current_head commit (E.others k u)))
      → P (after_commit E change k next repo current_head r)
  after_commit-rule P k next repo current_head ((some why, u), commit) stop go = stop why u
  after_commit-rule P k next repo current_head ((none, u), commit) stop go = go u commit refl

  with_current-rule :
      (P : Outcome × World → Type 0) (k : ℕ) (next : World → Outcome × World) (repo : Repo)
      (new_commit : Commit) (v : World) (o : Option Commit)
      → P (refused invalid_repo, v)
      → ((c : Commit)
          → o ≡ some c
          → P (
              after_commit E change k next repo c
                (merge_with_head E change v repo c new_commit (E.now (suc k)))))
      → P (with_current E change k next repo new_commit v o)
  with_current-rule P k next repo new_commit v none stop go = stop
  with_current-rule P k next repo new_commit v (some c) stop go = go c refl

  pub in_repo-rule :
      (P : Outcome × World → Type 0) (repo_id : CString) (next : Repo → Outcome × World) (v : World)
      (o : Option Repo)
      → get_repo E v repo_id ≡ o
      → P (refused invalid_repo, v)
      → ((repo : Repo) → get_repo E v repo_id ≡ some repo → P (next repo))
      → P (in_repo E change next v o)
  in_repo-rule P repo_id next v none e stop go = stop
  in_repo-rule P repo_id next v (some repo) e stop go = go repo e

  pub start-rule :
      (P : Outcome × World → Type 0) (repo_id : CString) (repo : Repo)
      (r : (Option Refusal × World) × Commit)
      → ((why : Refusal) (u : World) → P (refused why, u))
      → ((v : World) (commit : Commit)
          → r ≡ ((none, v), commit)
          → P (attempts E change 3 0 repo_id commit repo v))
      → P (start E change repo_id repo r)
  start-rule P repo_id repo ((some why, v), commit) stop go = stop why v
  start-rule P repo_id repo ((none, v), commit) stop go = go v commit refl

  -- What holds of each refusal, and of each attempt of the run that has updated the branch, holds of
  -- the outcome.
  module _ (repo_id : CString) (new_commit : Commit) (w : World) (P : Outcome × World → Type 0)
      (stops : (why : Refusal) (u : World) → P (refused why, u))
      (done : (k : ℕ) (repo : Repo) (v : World) (t : Tried E change new_commit k repo v)
        → Reaches E change new_commit repo_id w k repo v
        → k ≤ 3
        → t.updated ≡ true
        → P (committed t.commit.commit_id, left_by E change new_commit k repo v t)) where
    abbrev Continues : (k : ℕ) (repo : Repo) (v : World) → (World → Outcome × World) → Type 0
    Continues k repo v next =
        (t : Tried E change new_commit k repo v)
        → t.updated ≡ false
        → change.retry_on_conflict ≡ true
        → P (next (left_by E change new_commit k repo v t))

    after_update-holds :
        (k : ℕ) (next : World → Outcome × World) (repo : Repo) (v saved : World)
        (current_head commit : Commit) (r : Bool × BranchState)
        → Reaches E change new_commit repo_id w k repo v
        → k ≤ 3
        → get_commit v.commits repo.id repo.head.commit_id ≡ some current_head
        → merge_with_head E change v repo current_head new_commit (E.now (suc k))
          ≡ ((none, saved), commit)
        → test_and_update_branch E.is_virtual_repo
            (E.trans k)
            (branch_set_commit repo.head commit.commit_id)
            current_head.commit_id
            (E.others k saved).branches
          ≡ r
        → Continues k repo v next
        → P (after_update E change k next commit (E.others k saved) r)
    after_update-holds k next repo v saved current_head commit r reached few a b c later =
        let tried : Tried E change new_commit k repo v = record {
          current_head = current_head;
          commit = commit;
          saved = saved;
          updated = r.0;
          branches = r.1;
          is_current = a;
          merges = b;
          updates = c;
        } in
        after_update-rule P k next commit (E.others k saved) r
          (λ ok. done k repo v tried reached few ok) (λ fails retry. later tried fails retry)
          (λ fails. stops concurrent_upload _)

    after_commit-holds :
        (k : ℕ) (next : World → Outcome × World) (repo : Repo) (v : World) (current_head : Commit)
        (r : (Option Refusal × World) × Commit)
        → Reaches E change new_commit repo_id w k repo v
        → k ≤ 3
        → get_commit v.commits repo.id repo.head.commit_id ≡ some current_head
        → merge_with_head E change v repo current_head new_commit (E.now (suc k)) ≡ r
        → Continues k repo v next
        → P (after_commit E change k next repo current_head r)
    after_commit-holds k next repo v current_head r reached few a b later =
        after_commit-rule P k next repo current_head r stops (λ u commit e.
          after_update-holds k next repo v u current_head commit _ reached few a (b ∙ e) refl later)

    with_current-holds :
        (k : ℕ) (next : World → Outcome × World) (repo : Repo) (v : World) (o : Option Commit)
        → Reaches E change new_commit repo_id w k repo v
        → k ≤ 3
        → get_commit v.commits repo.id repo.head.commit_id ≡ o
        → Continues k repo v next
        → P (with_current E change k next repo new_commit v o)
    with_current-holds k next repo v o reached few e later =
        with_current-rule P k next repo new_commit v o (stops invalid_repo _)
          (λ c is_some. after_commit-holds k next repo v c _ reached few (e ∙ is_some) refl later)

    pub attempts-holds :
        (left k : ℕ) (repo : Repo) (v : World)
        → k + left ≡ 3
        → Reaches E change new_commit repo_id w k repo v
        → P (attempts E change left k repo_id new_commit repo v)
    unfolding attempts
    attempts-holds zero k repo v few reached =
        with_current-holds k (λ w'. (refused concurrent_update, w')) repo v _ reached
          (omega (arith, few)) refl (λ t no_update retry. stops concurrent_update _)
    attempts-holds (suc left) k repo v few reached =
        with_current-holds k (again E change left k repo_id new_commit) repo v _ reached
          (omega (arith, few)) refl
          (λ t no_update retry.
            in_repo-rule P repo_id
              (λ repo'.
                attempts E change left (suc k) repo_id new_commit repo'
                  (E.sleeps k (left_by E change new_commit k repo v t)))
              (E.sleeps k (left_by E change new_commit k repo v t)) _ refl (stops invalid_repo _)
              (λ repo' loads.
                attempts-holds left (suc k) repo' _ (omega (arith, few))
                  (next_attempt t reached no_update retry loads)))
