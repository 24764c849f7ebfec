-- ===== src/Commit/Publish/Landing.antt =====
-- How a change that `gen_new_commit` of server/repo-op.c publishes moves the branch.
use mathlib.Core.Path.{subst}
use seafile_server.Base.{
  ℕ, suc, ◌≤◌, ◌≡◌, ◌≢◌, refl, sym, ap, ◌∙◌, inl, inr, Bool, true, false, Option, none, some, [],
  ◌∷◌, CString, codes, if_split, str_eq, str_eq_iff, arith, length, take,
}
use seafile_server.Merge.{MergeState, Rc, success, failure, out_of_fuel}
use seafile_server.Branch.{Branch, BranchState, put_row, branch_set_commit}
use seafile_server.Branch.Swap.{test_and_update_branch_swaps}
use seafile_server.Commit.{Commit, Repo, Commits, commit_new, repo_to_commit}
use seafile_server.Commit.Stores.{load_commit_id}
use seafile_server.Commit.Publish.Repos.{IsMaster, get_repo-IsMaster}
use seafile_server.Commit.Publish.{
  World, PublishEnv, Change, Refusal, invalid_repo, committed, refused, get_repo, save_commit,
  saved_commit, merged_commit, after_merge, merge_with_head, attempts, new_commit_of, start,
  gen_new_commit, merge_env,
}
use seafile_server.Commit.Publish.Ways.{in_repo-rule, start-rule, attempts-holds}
use seafile_server.Commit.Publish.Attempts.{
  merge_result, Fits, Tried, left_by, Reaches, first_attempt, next_attempt, Landed,
}

master_row :
    (head : Branch) (commit_id repo_id id : CString)
    → head.name ≡ codes "master"
    → head.repo_id ≡ take 36 repo_id
    → commit_id ≡ id
    → branch_set_commit head commit_id
      ≡ record { name = codes "master"; repo_id = take 36 repo_id; commit_id = take 40 id }
unfolding branch_set_commit
master_row head commit_id repo_id id n r e = rw (n, r, e) refl

refused≢committed : (why : Refusal) (id : CString) → refused why ≢ committed id
refused≢committed why id = λ e. cc

committed_eq : (a b : CString) → committed a ≡ committed b → a ≡ b
committed_eq a b h = cc

not_empty : (id : CString) → length id ≡ 40 → id ≢ []
not_empty [] h = ground arith
not_empty (x ∷ id) h = λ e. cc

module _ (E : PublishEnv) (change : Change) where
  saved_commit_same :
      (w : World) (c : Commit) (r : Bool × Commits) → (saved_commit E change w c r).1 ≡ c
  saved_commit_same w c (true, commits) = refl
  saved_commit_same w c (false, commits) = refl

  pub save_commit_same : (w : World) (c : Commit) → (save_commit E change w c).1 ≡ c
  unfolding save_commit
  save_commit_same w c = saved_commit_same w c _

  merged_commit-Fits :
      (v : World) (repo : Repo) (current_head new_commit : Commit) (time : ℕ)
      (s : MergeState (merge_env E v repo new_commit.commit_id))
      → merge_result E change v repo current_head new_commit ≡ (success, s)
      → Fits E change v repo current_head new_commit (
          merged_commit E change repo current_head new_commit s.objects s.conflict
            s.merged_tree_root time)
  unfolding merged_commit repo_to_commit commit_new
  merged_commit-Fits v repo current_head new_commit time s e =
      (refl, inr (refl, rw e refl, rw e refl))

  after_merge-Fits :
      (v : World) (repo : Repo) (current_head new_commit : Commit) (time : ℕ)
      (r : Rc × MergeState (merge_env E v repo new_commit.commit_id))
      → merge_result E change v repo current_head new_commit ≡ r
      → (after_merge E change _ v repo current_head new_commit time r).0.0 ≡ none
      → Fits E change v repo current_head new_commit
          (after_merge E change _ v repo current_head new_commit time r).1
  after_merge-Fits v repo current_head new_commit time (failure, s) e h = cc
  after_merge-Fits v repo current_head new_commit time (out_of_fuel, s) e h = cc
  after_merge-Fits v repo current_head new_commit time (success, s) e h =
      subst (λ (c : Commit). Fits E change v repo current_head new_commit c)
        (sym (
          save_commit_same (record v { objects = s.objects })
            (merged_commit E change repo current_head new_commit s.objects s.conflict
              s.merged_tree_root time)))
        (merged_commit-Fits v repo current_head new_commit time s e)

  merge_with_head-Fits :
      (v : World) (repo : Repo) (current_head new_commit : Commit) (time : ℕ)
      → new_commit.parent_id ≡ some change.base.commit_id
      → (merge_with_head E change v repo current_head new_commit time).0.0 ≡ none
      → Fits E change v repo current_head new_commit
          (merge_with_head E change v repo current_head new_commit time).1
  unfolding merge_with_head
  merge_with_head-Fits v repo current_head new_commit time parent =
      if_split
        (λ (x : (Option Refusal × World) × Commit).
          x.0.0 ≡ none → Fits E change v repo current_head new_commit x.1)
        (str_eq change.base.commit_id current_head.commit_id) ((none, v), new_commit) _
        (λ e h.
          let same = (str_eq_iff change.base.commit_id current_head.commit_id).0 e in
          (parent ∙ ap (λ (x : CString). some x) same, inl (same, refl)))
        (λ e h. after_merge-Fits v repo current_head new_commit time _ refl h)

  Reaches-IsMaster :
      {new_commit : Commit} {repo_id : CString} {w : World} {k : ℕ} {repo : Repo} {v : World}
      → Reaches E change new_commit repo_id w k repo v
      → IsMaster repo_id repo
  Reaches-IsMaster (first_attempt {repo} {v} loads saves) = get_repo-IsMaster E _ _ loads
  Reaches-IsMaster (next_attempt t r a b loads) = get_repo-IsMaster E _ _ loads

  module _ (repo_id : CString) (new_commit : Commit) (w : World) (id : CString)
      (parent : new_commit.parent_id ≡ some change.base.commit_id) where
    Tried-Landed :
        (k : ℕ) (repo : Repo) (v : World) (t : Tried E change new_commit k repo v)
        → Reaches E change new_commit repo_id w k repo v
        → k ≤ 3
        → t.updated ≡ true
        → t.commit.commit_id ≡ id
        → Landed E change new_commit repo_id w id (left_by E change new_commit k repo v t)
    unfolding branch_set_commit
    Tried-Landed k repo v t reached few ok is_id =
        let (name_is, repo_is) = Reaches-IsMaster reached in
        let (same_id, len) = load_commit_id v.commits repo.id repo.head.commit_id t.is_current in
        let (works_ok, head, there, cut, heads) =
          test_and_update_branch_swaps E.is_virtual_repo (E.trans k)
            (branch_set_commit repo.head t.commit.commit_id) t.current_head.commit_id
            (E.others k t.saved).branches
            (not_empty t.current_head.commit_id (ap length same_id ∙ len))
            (ap (λ (x : Bool × BranchState). x.0) t.updates ∙ ok) in
        record {
          attempt = k;
          repo = repo;
          begins = v;
          reached = reached;
          in_time = few;
          tried = t;
          did_update = ok;
          ends = refl;
          is_commit = is_id;
          fits =
              subst
                (λ (x : (Option Refusal × World) × Commit).
                  x.0.0 ≡ none → Fits E change v repo t.current_head new_commit x.1)
                t.merges
                (merge_with_head-Fits v repo t.current_head new_commit (E.now (suc k)) parent) refl;
          head = head;
          was_head =
              subst
                (λ (r : CString).
                  (E.others k t.saved).branches.heads r (codes "master") ≡ some head)
                repo_is
                (subst
                  (λ (n : CString).
                    (E.others k t.saved).branches.heads repo.head.repo_id n ≡ some head)
                  name_is there);
          is_head = cut;
          moved =
              ap (λ (x : Bool × BranchState). x.1.heads) (sym t.updates)
              ∙ heads
              ∙ ap (λ (b : Branch). put_row b (E.others k t.saved).branches.heads)
                  (master_row repo.head t.commit.commit_id repo_id id name_is repo_is is_id);
        }

  new_commit_of-parent :
      (repo : Repo) (desc : CString)
      → (new_commit_of E change repo desc).parent_id ≡ some change.base.commit_id
  unfolding new_commit_of repo_to_commit
  new_commit_of-parent repo desc = refl

  -- A run whose attempts are those of another commit, which is the same.
  attempts-Landed :
      (repo_id : CString) (new_commit commit : Commit) (w v : World) (id : CString) (repo : Repo)
      → get_repo E w repo_id ≡ some repo
      → new_commit.parent_id ≡ some change.base.commit_id
      → save_commit E change w new_commit ≡ ((none, v), commit)
      → commit ≡ new_commit
      → (attempts E change 3 0 repo_id commit repo v).0 ≡ committed id
      → Landed E change new_commit repo_id w id (attempts E change 3 0 repo_id commit repo v).1
  attempts-Landed repo_id new_commit commit w v id repo loads parent saves same =
      let saves_it : save_commit E change w new_commit ≡ ((none, v), new_commit) =
        saves ∙ ap (λ (c : Commit). ((none, v), c)) same in
      subst
        (λ (c : Commit).
          (attempts E change 3 0 repo_id c repo v).0 ≡ committed id
          → Landed E change new_commit repo_id w id (attempts E change 3 0 repo_id c repo v).1)
        (sym same)
        (attempts-holds E change repo_id new_commit w
          (λ x. x.0 ≡ committed id → Landed E change new_commit repo_id w id x.1)
          (λ why u refusal. absurd (refused≢committed why id refusal))
          (λ k repo' v' t reached few ok is_committed.
            Tried-Landed repo_id new_commit w id parent k repo' v' t reached few ok
              (committed_eq t.commit.commit_id id is_committed))
          3 0 repo v refl (first_attempt loads saves_it))

  -- Where gen_new_commit reports a change as published, whatever other processes do to branches,
  -- commits and directories in between, one of its at most four attempts is the last: it begins in
  -- the world that the run reaches by saving the new commit and by the attempts before it, in each
  -- of which the update of the branch was refused; it reads the head of the library and makes a
  -- commit whose parent is that head, and which is the new commit where the head is its base, or
  -- else has the new commit as its second parent and the root that the merge with the head yields;
  -- in the table as its transaction finds it, the row of the library's branch master holds that
  -- head, and the table that the call leaves is that one with the row set to the commit.
  pub gen_new_commit_lands :
      (repo_id desc id : CString) (w : World)
      → (gen_new_commit E change repo_id desc w).0 ≡ committed id
      → (repo : Repo) × (get_repo E w repo_id ≡ some repo)
        × Landed E change
            (new_commit_of E change repo desc)
            repo_id
            w
            id
            (gen_new_commit E change repo_id desc w).1
  unfolding gen_new_commit
  gen_new_commit_lands repo_id desc id w =
      in_repo-rule E change
        (λ x.
          x.0 ≡ committed id
          → (repo : Repo) × (get_repo E w repo_id ≡ some repo)
            × Landed E change (new_commit_of E change repo desc) repo_id w id x.1)
        repo_id
        (λ repo.
          start E change repo_id repo (save_commit E change w (new_commit_of E change repo desc)))
        w (get_repo E w repo_id) refl
        (λ refusal. absurd (refused≢committed invalid_repo id refusal))
        (λ repo loads.
          start-rule E change
            (λ x.
              x.0 ≡ committed id
              → (repo : Repo) × (get_repo E w repo_id ≡ some repo)
                × Landed E change (new_commit_of E change repo desc) repo_id w id x.1)
            repo_id repo (save_commit E change w (new_commit_of E change repo desc))
            (λ why u refusal. absurd (refused≢committed why id refusal))
            (λ v commit saves is_committed. (
              repo,
              loads,
              attempts-Landed repo_id (new_commit_of E change repo desc) commit w v id repo loads
                  (new_commit_of-parent repo desc) saves
                  (ap (λ (x : (Option Refusal × World) × Commit). x.1) (sym saves)
                    ∙ save_commit_same w (new_commit_of E change repo desc))
                  is_committed,
            )))
