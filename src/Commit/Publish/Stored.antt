-- ===== src/Commit/Publish/Stored.antt =====
-- The head of the branch and the commit that it names, through `gen_new_commit` of server/repo-op.c.
use mathlib.Core.Path.{subst}
use seafile_server.Base.{
  ℕ, zero, suc, ◌≤◌, ◌≡◌, refl, sym, ap, ◌∙◌, inl, inr, Bool, true, false, Option, none, some, List,
  CString, codes, if_rule, Bool-cases, length, take,
}
use seafile_server.Branch.{Branch, BranchState, Table, branch_set_commit, test_and_update_branch}
use seafile_server.Branch.Swap.{test_and_update_branch_refuses, test_and_update_branch-head}
use seafile_server.Commit.{Commit, Repo, get_commit}
use seafile_server.Commit.Publish.Saves.{
  Has, HeadStored, IsOf, IsLoaded, Good, get_repo-IsLoaded, new_commit_of-IsOf, save_new-Good,
  merge_with_head-Good,
}
use seafile_server.Commit.Publish.Landing.{save_commit_same}
use seafile_server.Commit.Publish.{
  World, PublishEnv, Change, Refusal, concurrent_update, Outcome, refused, get_repo, save_commit,
  merge_with_head, set_branches, after_update, after_commit, with_current, in_repo, attempts, again,
  new_commit_of, start, gen_new_commit,
}

module _ (E : PublishEnv) (change : Change) (repo_id : CString) (short : length repo_id ≤ 36)
    (sha1_size : (bytes : List ℕ) → length (E.sha1 bytes) ≡ 20)
    (others_keep : (k : ℕ) (w : World) → HeadStored repo_id w → HeadStored repo_id (E.others k w))
    (others_have : (k : ℕ) (w : World) (i : CString)
      → Has repo_id w i
      → Has repo_id (E.others k w) i)
    (sleeps_keep : (k : ℕ) (w : World) → HeadStored repo_id w → HeadStored repo_id (E.sleeps k w))
    (sleeps_have : (k : ℕ) (w : World) (i : CString)
      → Has repo_id w i
      → Has repo_id (E.sleeps k w) i) where
  at_row :
      (heads : Table) (branch : Branch)
      → branch.repo_id ≡ repo_id
      → branch.name ≡ codes "master"
      → heads branch.repo_id branch.name ≡ heads repo_id (codes "master")
  at_row heads branch h k = ap (λ (r : CString). heads r branch.name) h ∙ ap (heads repo_id) k

  -- What a retry has to give.
  abbrev Goes : CString → (World → Outcome × World) → Type 0
  Goes new_id next =
      (w : World) → HeadStored repo_id w → Has repo_id w new_id → HeadStored repo_id (next w).1

  after_update-Stored :
      (attempt : ℕ) (next : World → Outcome × World) (commit : Commit) (new_id : CString)
      (w : World) (r : Bool × BranchState)
      → HeadStored repo_id (set_branches E change w r.1)
      → Has repo_id w new_id
      → Goes new_id next
      → HeadStored repo_id (after_update E change attempt next commit w r).1
  after_update-Stored attempt next commit new_id w (true, branches) head has later = head
  after_update-Stored attempt next commit new_id w (false, branches) head has later =
      if_rule (λ (x : Outcome × World). HeadStored repo_id x.1) change.retry_on_conflict _ _
        (later _ head has) head

  updated-Stored :
      (attempt : ℕ) (repo : Repo) (current_head commit : Commit) (w : World)
      → IsLoaded repo_id repo
      → IsOf repo_id commit
      → HeadStored repo_id w
      → Has repo_id w commit.commit_id
      → HeadStored repo_id (
          set_branches E change w
            (test_and_update_branch E.is_virtual_repo
              (E.trans attempt)
              (branch_set_commit repo.head commit.commit_id)
              current_head.commit_id
              w.branches).1)
  unfolding branch_set_commit
  updated-Stored attempt repo current_head commit w (own, of_repo, of_master) is_of
        (row, there, has_row) has =
      let branch = branch_set_commit repo.head commit.commit_id in
      let r =
        test_and_update_branch E.is_virtual_repo (E.trans attempt) branch current_head.commit_id
          w.branches in
      elim (Bool-cases r.0) [
        | inl e ↦ (
          branch.commit_id,
          sym (at_row r.1.heads branch of_repo of_master)
              ∙ test_and_update_branch-head E.is_virtual_repo (E.trans attempt) branch
                  current_head.commit_id w.branches
                  (at_row w.branches.heads branch of_repo of_master ∙ there) e,
          subst (Has repo_id w) (sym (ap (take 40) is_of.1 ∙ is_of.1)) has,
        )
        | inr e ↦
            subst (λ (b : BranchState). HeadStored repo_id (set_branches E change w b))
              (sym (
                test_and_update_branch_refuses E.is_virtual_repo (E.trans attempt) branch
                  current_head.commit_id w.branches e))
              (row, there, has_row)
      ]

  after_commit-Stored :
      (attempt : ℕ) (next : World → Outcome × World) (repo : Repo) (current_head : Commit)
      (new_id : CString) (r : (Option Refusal × World) × Commit)
      → IsLoaded repo_id repo
      → Good repo_id new_id r
      → Goes new_id next
      → HeadStored repo_id (after_commit E change attempt next repo current_head r).1
  after_commit-Stored attempt next repo current_head new_id ((some why, w), commit) loads
        (head, done) later =
      head
  after_commit-Stored attempt next repo current_head new_id ((none, w), commit) loads (head, done)
        later =
      let (new, stored, is_of) = done refl in
      let v = E.others attempt w in
      after_update-Stored attempt next commit new_id v _
        (updated-Stored attempt repo current_head commit v loads is_of (others_keep attempt w head)
          (others_have attempt w commit.commit_id stored))
        (others_have attempt w new_id new) later

  with_current-Stored :
      (attempt : ℕ) (next : World → Outcome × World) (repo : Repo) (new_commit : Commit) (w : World)
      (o : Option Commit)
      → IsLoaded repo_id repo
      → IsOf repo_id new_commit
      → HeadStored repo_id w
      → Has repo_id w new_commit.commit_id
      → Goes new_commit.commit_id next
      → HeadStored repo_id (with_current E change attempt next repo new_commit w o).1
  with_current-Stored attempt next repo new_commit w none loads is_of head has later = head
  with_current-Stored attempt next repo new_commit w (some c) loads is_of head has later =
      after_commit-Stored attempt next repo c new_commit.commit_id
        (merge_with_head E change w repo c new_commit (E.now (suc attempt))) loads
        (merge_with_head-Good E change repo_id short sha1_size w repo c new_commit
          (E.now (suc attempt)) loads.0 is_of head has)
        later

  in_repo-Stored :
      (next : Repo → Outcome × World) (w : World) (o : Option Repo)
      → get_repo E w repo_id ≡ o
      → HeadStored repo_id w
      → ((repo : Repo) → IsLoaded repo_id repo → HeadStored repo_id (next repo).1)
      → HeadStored repo_id (in_repo E change next w o).1
  in_repo-Stored next w none e head go = head
  in_repo-Stored next w (some repo) e head go = go repo (get_repo-IsLoaded E w repo_id repo e)

  attempts-Stored :
      (left attempt : ℕ) (new_commit : Commit) (repo : Repo) (w : World)
      → IsLoaded repo_id repo
      → IsOf repo_id new_commit
      → HeadStored repo_id w
      → Has repo_id w new_commit.commit_id
      → HeadStored repo_id (attempts E change left attempt repo_id new_commit repo w).1
  unfolding attempts
  attempts-Stored zero attempt new_commit repo w loads is_of head has =
      with_current-Stored attempt (λ w'. (refused concurrent_update, w')) repo new_commit w
        (get_commit w.commits repo.id repo.head.commit_id) loads is_of head has (λ w' h k. h)
  attempts-Stored (suc left) attempt new_commit repo w loads is_of head has =
      with_current-Stored attempt (again E change left attempt repo_id new_commit) repo new_commit w
        (get_commit w.commits repo.id repo.head.commit_id) loads is_of head has
        (λ w1 head1 has1.
          let head2 = sleeps_keep attempt w1 head1 in
          let has2 = sleeps_have attempt w1 new_commit.commit_id has1 in
          in_repo-Stored
            (λ repo'.
              attempts E change left (suc attempt) repo_id new_commit repo' (E.sleeps attempt w1))
            (E.sleeps attempt w1) (get_repo E (E.sleeps attempt w1) repo_id) refl head2
            (λ repo' loads'.
              attempts-Stored left (suc attempt) new_commit repo' (E.sleeps attempt w1) loads' is_of
                head2 has2))

  start-Stored :
      (repo : Repo) (r : (Option Refusal × World) × Commit)
      → IsLoaded repo_id repo
      → Good repo_id r.1.commit_id r
      → HeadStored repo_id (start E change repo_id repo r).1
  start-Stored repo ((some why, w), commit) loads (head, done) = head
  start-Stored repo ((none, w), commit) loads (head, done) =
      let (new, stored, is_of) = done refl in attempts-Stored 3 0 commit repo w loads is_of head new

  -- Where the branch master of a library has a head whose commit is stored, and other processes
  -- keep that so and remove no commit of the library, it is so after gen_new_commit, whatever
  -- that returns; ids of libraries have at most 36 bytes, and SHA-1 makes 20 bytes.
  pub gen_new_commit-HeadStored :
      (desc : CString) (w : World)
      → HeadStored repo_id w
      → HeadStored repo_id (gen_new_commit E change repo_id desc w).1
  unfolding gen_new_commit
  gen_new_commit-HeadStored desc w head =
      in_repo-Stored
        (λ repo.
          start E change repo_id repo (save_commit E change w (new_commit_of E change repo desc)))
        w (get_repo E w repo_id) refl head
        (λ repo loads.
          let new_commit = new_commit_of E change repo desc in
          start-Stored repo (save_commit E change w new_commit) loads (
            subst (λ (c : Commit). Good repo_id c.commit_id (save_commit E change w new_commit))
              (sym (save_commit_same E change w new_commit))
              (save_new-Good E change repo_id short sha1_size w new_commit
                (new_commit_of-IsOf E change repo_id short sha1_size repo desc loads.0) head)))
