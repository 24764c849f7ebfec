-- ===== src/Commit/Publish/Repos.antt =====
-- What `seaf_repo_manager_get_repo` of server/repo-mgr.c has read of a library.
use seafile_server.Base.{
  ◌≤◌, ◌≡◌, refl, sym, ap, ◌∙◌, inl, inr, Option, none, some, CString, codes, arith, Bool-cases,
  length, take, ltb, take-all,
}
use seafile_server.Branch.{Branch, branch_new, get_commit_id}
use seafile_server.Commit.{Commit, Repo, get_commit, repo_from_commit}
use seafile_server.Commit.Publish.{World, PublishEnv, get_repo, with_head, loaded, blank_repo}

-- The library is the one asked for, with its branch "master".
abbrev pub IsMaster : CString → Repo → Type 0
IsMaster repo_id repo = (repo.head.name ≡ codes "master") × (repo.head.repo_id ≡ take 36 repo_id)

-- What `get_repo` has read.
pub record Read (w : World) (id : CString) (repo : Repo) : Type 0 where
  pub short : length id ≤ 36
  pub own_id : repo.id ≡ id
  pub row : CString
  pub there : w.branches.heads id (codes "master") ≡ some row
  pub head : repo.head ≡ branch_new (codes "master") id row
  pub current : Commit
  pub found : get_commit w.commits id repo.head.commit_id ≡ some current

-- The row of the branch still is the head that the library was given.
pub Read-head :
    (w : World) (id : CString) (repo : Repo) (r : Read w id repo)
    → get_commit_id (w.branches.heads repo.head.repo_id repo.head.name) ≡ repo.head.commit_id
unfolding get_commit_id branch_new
Read-head w id repo r =
    ap (λ (b : Branch). get_commit_id (w.branches.heads b.repo_id b.name)) r.head
    ∙ ap (λ (x : CString). get_commit_id (w.branches.heads x (codes "master")))
        (take-all 36 id r.short)
    ∙ ap get_commit_id r.there
    ∙ ap (λ (b : Branch). b.commit_id) (sym r.head)

module _ (E : PublishEnv) where
  loaded-Read :
      (w : World) (id store_id row : CString) (o : Option Commit) (repo : Repo)
      → length id ≤ 36
      → w.branches.heads id (codes "master") ≡ some row
      → get_commit w.commits id (branch_new (codes "master") id row).commit_id ≡ o
      → loaded E (blank_repo E id store_id (branch_new (codes "master") id row)) o ≡ some repo
      → Read w id repo
  unfolding repo_from_commit branch_new
  loaded-Read w id store_id row none repo short there found h = cc
  loaded-Read w id store_id row (some c) repo short there found h =
      let head : branch_new (codes "master") id row ≡ repo.head = cc in
      record {
        short = short;
        own_id = cc;
        row = row;
        there = there;
        head = sym head;
        current = c;
        found = ap (λ (b : Branch). get_commit w.commits id b.commit_id) (sym head) ∙ found;
      }

  with_head-Read :
      (w : World) (id : CString) (store head : Option CString) (repo : Repo)
      → length id ≤ 36
      → w.branches.heads id (codes "master") ≡ head
      → with_head E w id store head ≡ some repo
      → Read w id repo
  with_head-Read w id none head repo short there h = cc
  with_head-Read w id (some store_id) none repo short there h = cc
  with_head-Read w id (some store_id) (some row) repo short there h =
      loaded-Read w id store_id row _ repo short there refl h

  pub get_repo-Read :
      (w : World) (id : CString) (repo : Repo) → get_repo E w id ≡ some repo → Read w id repo
  unfolding get_repo
  get_repo-Read w id repo h = elim (Bool-cases (ltb (length id) 37)) [
    | inl e ↦
        with_head-Read w id (E.store_of id) (w.branches.heads id (codes "master")) repo
          (ground arith) refl (ground arith)
    | inr e ↦ absurd (ground arith)
  ]

  loaded-IsMaster :
      (id store_id commit_id : CString) (o : Option Commit) (repo : Repo)
      → loaded E (blank_repo E id store_id (branch_new (codes "master") id commit_id)) o ≡ some repo
      → IsMaster id repo
  unfolding repo_from_commit branch_new
  loaded-IsMaster id store_id commit_id none repo h = cc
  loaded-IsMaster id store_id commit_id (some c) repo h =
      let heads : branch_new (codes "master") id commit_id ≡ repo.head = cc in
      (ap (λ (b : Branch). b.name) (sym heads), ap (λ (b : Branch). b.repo_id) (sym heads))

  with_head-IsMaster :
      (w : World) (id : CString) (store head : Option CString) (repo : Repo)
      → with_head E w id store head ≡ some repo
      → IsMaster id repo
  with_head-IsMaster w id none head repo h = cc
  with_head-IsMaster w id (some store_id) none repo h = cc
  with_head-IsMaster w id (some store_id) (some commit_id) repo h =
      loaded-IsMaster id store_id commit_id
        (get_commit w.commits id (branch_new (codes "master") id commit_id).commit_id) repo h

  pub get_repo-IsMaster :
      (w : World) (repo_id : CString) {repo : Repo}
      → get_repo E w repo_id ≡ some repo
      → IsMaster repo_id repo
  unfolding get_repo
  get_repo-IsMaster w repo_id {repo} h = elim (Bool-cases (ltb (length repo_id) 37)) [
    | inl e ↦
        with_head-IsMaster w repo_id (E.store_of repo_id)
          (w.branches.heads repo_id (codes "master")) repo (ground arith)
    | inr e ↦ absurd (ground arith)
  ]
