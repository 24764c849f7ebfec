-- ===== src/Commit/Stores.antt =====
-- Lemmas on the store of commits of common/commit-mgr.c.
use seafile_server.Base.{
  ◌≡◌, refl, sym, ◌∙◌, inl, inr, Bool, true, some, CString, str_eq_iff, str_eq_refl, arith,
  Option-cases, length,
}
use seafile_server.Commit.{Commit, Commits, get_commit, add_commit}

pub load_commit_id :
    (commits : Commits) (repo_id id : CString) {c : Commit}
    → get_commit commits repo_id id ≡ some c
    → (c.commit_id ≡ id) × (length id ≡ 40)
unfolding get_commit
load_commit_id commits repo_id id {c} h = elim (Option-cases (commits repo_id id)) [
  | inl e ↦ ground arith
  | inr (old, e) ↦ ground arith
]

pub add_commit-keeps :
    (ok : Bool) (commit : Commit) (commits : Commits) (r i : CString) {old : Commit}
    → commits r i ≡ some old
    → (add_commit ok commit commits).1 r i ≡ some old
unfolding add_commit
add_commit-keeps ok commit commits r i {old} h =
    ground (arith, str_eq_iff r commit.repo_id, str_eq_iff i commit.commit_id)

get_commit-same :
    (commits commits' : Commits) (r i : CString)
    → commits r i ≡ commits' r i
    → get_commit commits r i ≡ get_commit commits' r i
unfolding get_commit
get_commit-same commits commits' r i e = rw e refl

pub get_commit-keeps :
    (ok : Bool) (commit : Commit) (commits : Commits) (r i : CString) {old : Commit}
    → get_commit commits r i ≡ some old
    → get_commit (add_commit ok commit commits).1 r i ≡ some old
unfolding get_commit
get_commit-keeps ok commit commits r i {old} h = elim (Option-cases (commits r i)) [
  | inl e ↦ absurd (ground arith)
  | inr (x, e) ↦
      get_commit-same (add_commit ok commit commits).1 commits r i
        (add_commit-keeps ok commit commits r i e ∙ sym e)
      ∙ h
]

pub add_commit_ok :
    (commit : Commit) (commits : Commits)
    → add_commit true commit commits ≡ (true, (add_commit true commit commits).1)
unfolding add_commit
add_commit_ok commit commits = elim (Option-cases (commits commit.repo_id commit.commit_id)) [
  | inl e ↦ rw e refl
  | inr (x, e) ↦ rw e refl
]

-- A commit that was added is there, or another one under its id.
pub add_commit_there :
    (ok : Bool) (commit : Commit) (commits : Commits)
    → (add_commit ok commit commits).0 ≡ true
    → (x : Commit) × ((add_commit ok commit commits).1 commit.repo_id commit.commit_id ≡ some x)
unfolding add_commit
add_commit_there ok commit commits h =
    elim (Option-cases (commits commit.repo_id commit.commit_id)) [
      | inl e ↦ (commit, ground (arith, str_eq_refl commit.repo_id, str_eq_refl commit.commit_id))
      | inr (x, e) ↦ (x, ground arith)
    ]
