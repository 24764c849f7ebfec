-- ===== src/Commit/Publish/Saves.antt =====
-- What the commits that `gen_new_commit` of server/repo-op.c saves are, and that they are stored.
use mathlib.Core.Path.{subst}
use seafile_server.Base.{
  ℕ, ◌≤◌, ◌≡◌, refl, sym, ap, ◌∙◌, Bool, true, false, Option, none, some, List, CString, codes,
  if_rule, str_eq, arith, length, take, take-all,
}
use seafile_server.Hex.{rawdata_to_hex}
use seafile_server.Hex.RoundTrip.{length-rawdata_to_hex}
use seafile_server.Fs.{Objects}
use seafile_server.Merge.{MergeEnv, MergeState, Rc, success, failure, out_of_fuel}
use seafile_server.Branch.{Branch, branch_new}
use seafile_server.Commit.{
  Commit, Repo, Commits, compute_commit_id, commit_new, repo_to_commit, add_commit,
}
use seafile_server.Commit.Stores.{add_commit-keeps, add_commit_there}
use seafile_server.Commit.Publish.Repos.{get_repo-Read}
use seafile_server.Commit.Publish.{
  World, PublishEnv, Change, Refusal, get_repo, save_commit, saved_commit, merged_commit,
  after_merge, merge_with_head, new_commit_of,
}

-- A commit of the library is stored under the id.
abbrev pub Has : CString → World → CString → Type 0
Has repo_id w id = (c : Commit) × (w.commits repo_id id ≡ some c)

-- The branch has a head, which is stored.
abbrev pub HeadStored : CString → World → Type 0
HeadStored repo_id w =
    (row : CString) × (w.branches.heads repo_id (codes "master") ≡ some row)
    × Has repo_id w (take 40 row)

-- A commit of the library with a whole id.
abbrev pub IsOf : CString → Commit → Type 0
IsOf repo_id c = (c.repo_id ≡ repo_id) × (take 40 c.commit_id ≡ c.commit_id)

-- The library is the one asked for, with its branch "master".
abbrev pub IsLoaded : CString → Repo → Type 0
IsLoaded repo_id repo =
    (repo.id ≡ repo_id) × (repo.head.repo_id ≡ repo_id) × (repo.head.name ≡ codes "master")

-- The head is stored, and so are the new commit and the commit to be published, if there is one.
abbrev pub Good : CString → CString → (Option Refusal × World) × Commit → Type 0
Good repo_id new_id r =
    HeadStored repo_id r.0.1
    × (r.0.0 ≡ none → Has repo_id r.0.1 new_id × Has repo_id r.0.1 r.1.commit_id × IsOf repo_id r.1)

hex-size : (raw : List ℕ) → length raw ≡ 20 → length (rawdata_to_hex raw) ≡ 40
hex-size raw h = omega (arith, length-rawdata_to_hex raw, h)

module _ (E : PublishEnv) where
  pub get_repo-IsLoaded :
      (w : World) (repo_id : CString) (repo : Repo)
      → get_repo E w repo_id ≡ some repo
      → IsLoaded repo_id repo
  unfolding branch_new
  get_repo-IsLoaded w repo_id repo h =
      let read = get_repo-Read E w repo_id repo h in
      (
        read.own_id,
        ap (λ (b : Branch). b.repo_id) read.head ∙ take-all 36 repo_id read.short,
        ap (λ (b : Branch). b.name) read.head,
      )

  module _ (change : Change) (repo_id : CString) (short : length repo_id ≤ 36)
      (sha1_size : (bytes : List ℕ) → length (E.sha1 bytes) ≡ 20) where
    compute_commit_id-size : (c : Commit) → length (compute_commit_id E.sha1 c) ≡ 40
    unfolding compute_commit_id
    compute_commit_id-size c = hex-size _ (sha1_size _)

    commit_new-IsOf :
        (time : ℕ) (root user desc : CString)
        → IsOf repo_id (commit_new E.sha1 time repo_id root user desc)
    unfolding commit_new
    commit_new-IsOf time root user desc =
        (take-all 36 repo_id short, take-all 40 _ (omega (arith, compute_commit_id-size _)))

    commit_new-IsOf_loaded :
        (repo : Repo) (time : ℕ) (root user desc : CString)
        → repo.id ≡ repo_id
        → IsOf repo_id (commit_new E.sha1 time repo.id root user desc)
    commit_new-IsOf_loaded repo time root user desc own =
        subst (λ (i : CString). IsOf repo_id (commit_new E.sha1 time i root user desc)) (sym own)
          (commit_new-IsOf time root user desc)

    merged_commit-IsOf :
        (repo : Repo) (current_head new_commit : Commit) (objects : Objects) (conflict : Bool)
        (root : CString) (time : ℕ)
        → repo.id ≡ repo_id
        → IsOf repo_id
            (merged_commit E change repo current_head new_commit objects conflict root time)
    unfolding merged_commit repo_to_commit
    merged_commit-IsOf repo current_head new_commit objects conflict root time own =
        commit_new-IsOf_loaded repo time root change.user _ own

    pub new_commit_of-IsOf :
        (repo : Repo) (desc : CString)
        → repo.id ≡ repo_id
        → IsOf repo_id (new_commit_of E change repo desc)
    unfolding new_commit_of repo_to_commit
    new_commit_of-IsOf repo desc own =
        commit_new-IsOf_loaded repo (E.now 0) change.new_root change.user desc own

    saved_commit-Good :
        (w : World) (c : Commit) (new_id : CString) (r : Bool × Commits)
        → IsOf repo_id c
        → HeadStored repo_id w
        → ((i : CString) → Has repo_id w i → Has repo_id (record w { commits = r.1 }) i)
        → (r.0 ≡ true
            → Has repo_id (record w { commits = r.1 }) c.commit_id
              × Has repo_id (record w { commits = r.1 }) new_id)
        → Good repo_id new_id (saved_commit E change w c r)
    saved_commit-Good w c new_id (true, commits) is_of (row, there, has) keeps done = (
      (row, there, keeps (take 40 row) has),
      λ h. let (stored, new) = done refl in (new, stored, is_of),
    )
    saved_commit-Good w c new_id (false, commits) is_of head keeps done = (head, λ h. cc)

    add-Has :
        (ok : Bool) (w : World) (c : Commit) (i : CString)
        → Has repo_id w i
        → Has repo_id (record w { commits = (add_commit ok c w.commits).1 }) i
    add-Has ok w c i (x, h) = (x, add_commit-keeps ok c w.commits repo_id i h)

    add-there :
        (ok : Bool) (w : World) (c : Commit)
        → c.repo_id ≡ repo_id
        → (add_commit ok c w.commits).0 ≡ true
        → Has repo_id (record w { commits = (add_commit ok c w.commits).1 }) c.commit_id
    add-there ok w c own h =
        subst
          (λ (r : CString). (x : Commit) × ((add_commit ok c w.commits).1 r c.commit_id ≡ some x))
          own (add_commit_there ok c w.commits h)

    -- A commit of a merge is saved after the new commit.
    save_merged-Good :
        (w : World) (c : Commit) (new_id : CString)
        → IsOf repo_id c
        → HeadStored repo_id w
        → Has repo_id w new_id
        → Good repo_id new_id (save_commit E change w c)
    unfolding save_commit
    save_merged-Good w c new_id is_of head has =
        let ok = E.commit_write_ok c.commit_id in
        saved_commit-Good w c new_id (add_commit ok c w.commits) is_of head (add-Has ok w c)
          (λ h. (add-there ok w c is_of.0 h, add-Has ok w c new_id has))

    pub save_new-Good :
        (w : World) (c : Commit)
        → IsOf repo_id c
        → HeadStored repo_id w
        → Good repo_id c.commit_id (save_commit E change w c)
    unfolding save_commit
    save_new-Good w c is_of head =
        let ok = E.commit_write_ok c.commit_id in
        saved_commit-Good w c c.commit_id (add_commit ok c w.commits) is_of head (add-Has ok w c)
          (λ h. (add-there ok w c is_of.0 h, add-there ok w c is_of.0 h))

    after_merge-Good :
        (M : MergeEnv) (w : World) (repo : Repo) (current_head new_commit : Commit) (time : ℕ)
        (r : Rc × MergeState M)
        → repo.id ≡ repo_id
        → HeadStored repo_id w
        → Has repo_id w new_commit.commit_id
        → Good repo_id new_commit.commit_id
            (after_merge E change M w repo current_head new_commit time r)
    after_merge-Good M w repo current_head new_commit time (failure, s) own head has =
        (head, λ h. cc)
    after_merge-Good M w repo current_head new_commit time (out_of_fuel, s) own head has =
        (head, λ h. cc)
    after_merge-Good M w repo current_head new_commit time (success, s) own head has =
        save_merged-Good (record w { objects = s.objects })
          (merged_commit E change repo current_head new_commit s.objects s.conflict
            s.merged_tree_root time)
          new_commit.commit_id
          (merged_commit-IsOf repo current_head new_commit s.objects s.conflict s.merged_tree_root
            time own)
          head has

    pub merge_with_head-Good :
        (w : World) (repo : Repo) (current_head new_commit : Commit) (time : ℕ)
        → repo.id ≡ repo_id
        → IsOf repo_id new_commit
        → HeadStored repo_id w
        → Has repo_id w new_commit.commit_id
        → Good repo_id new_commit.commit_id
            (merge_with_head E change w repo current_head new_commit time)
    unfolding merge_with_head
    merge_with_head-Good w repo current_head new_commit time own is_of head has =
        if_rule (Good repo_id new_commit.commit_id)
          (str_eq change.base.commit_id current_head.commit_id) ((none, w), new_commit) _
          (head, λ h. (has, has, is_of))
          (after_merge-Good _ w repo current_head new_commit time _ own head has)
