-- ===== src/Branch.antt =====
-- The branches of libraries in the database, common/branch-mgr.c, as the server compiles it: adding,
-- deleting and updating a branch, and the update that tests the head.
pub mod Swap
use seafile_server.Base.{
  ℕ, Bool, true, false, not, ◌&&◌, Option, none, some, List, [], ◌∷◌, ◌++◌, CString, codes, str_eq,
  if◌then◌else◌, take,
}

-- `SeafBranch`
pub record Branch : Type 0 where
  pub name : CString
  pub repo_id : CString
  pub commit_id : CString

-- The table Branch: the commit of a library and a name, which are its key.
abbrev pub Table : Type 0
Table = CString → CString → Option CString

-- The table, the calls of `seaf_repo_manager_update_repo_info` (a library and its commit), and the
-- events that are published; the last is the first of a list.
pub record BranchState : Type 0 where
  pub heads : Table
  pub infos : List (CString × CString)
  pub events : List CString

-- `seaf_branch_new`: 36 and 40 bytes are copied.
unfoldable pub branch_new : CString → CString → CString → Branch
branch_new name repo_id commit_id = record {
  name = name;
  repo_id = take 36 repo_id;
  commit_id = take 40 commit_id;
}

unfoldable pub branch_set_commit : Branch → CString → Branch
branch_set_commit branch commit_id = record branch { commit_id = take 40 commit_id }

abbrev pub is_row : CString → CString → CString → CString → Bool
is_row repo_id name r n = str_eq r repo_id && str_eq n name

unfoldable pub put_row : Branch → Table → Table
put_row branch heads r n =
    if is_row branch.repo_id branch.name r n then some branch.commit_id else heads r n

abbrev present : Option CString → Bool
present none = false
present (some commit_id) = true

-- UPDATE … WHERE changes a row that there is.
unfoldable pub update_row : Branch → Table → Table
unfolding put_row
update_row branch heads =
    if present (heads branch.repo_id branch.name) then put_row branch heads else heads

-- `ok` is whether the database executes the statement; the flag is false for -1.
unfoldable pub add_branch : Bool → Branch → Table → Bool × Table
unfolding put_row
add_branch ok branch heads = if ok then (true, put_row branch heads) else (false, heads)

unfoldable pub del_branch : Bool → CString → CString → Table → Bool × Table
del_branch ok repo_id name heads =
    if ok
    then (true, λ r n. if is_row repo_id name r n then none else heads r n)
    else (false, heads)

unfoldable pub update_branch : Bool → Branch → Table → Bool × Table
unfolding update_row
update_branch ok branch heads = if ok then (true, update_row branch heads) else (false, heads)

-- The row that was selected, in a buffer of zeros: the first 40 bytes.
unfoldable pub get_commit_id : Option CString → CString
get_commit_id none = []
get_commit_id (some commit_id) = take 40 commit_id

-- What the database answers to the steps of a transaction. A transaction that is committed takes
-- effect as a whole, and one that is rolled back has none.
pub record Trans : Type 0 where
  pub begins : Bool
  pub selects : Bool
  pub updates : Bool
  pub commits : Bool

unfoldable pub publish_repo_update_event : CString → CString → BranchState → BranchState
publish_repo_update_event repo_id commit_id s = record s {
  events = (codes "repo-update" ++ 9 ∷ repo_id ++ 9 ∷ commit_id) ∷ s.events;
}

module _ (is_virtual_repo : CString → Bool) where
  unfoldable pub on_branch_updated : Branch → BranchState → BranchState
  unfolding publish_repo_update_event
  on_branch_updated branch s =
      let s' = record s { infos = (branch.repo_id, branch.commit_id) ∷ s.infos } in
      if is_virtual_repo branch.repo_id
      then s'
      else publish_repo_update_event branch.repo_id branch.commit_id s'

  unfoldable pub test_and_update_branch :
      Trans → Branch → CString → BranchState → Bool × BranchState
  unfolding get_commit_id update_row on_branch_updated
  test_and_update_branch t branch old_commit_id s =
      if not t.begins
      then (false, s)
      else if not t.selects
      then (false, s)
      else if not (str_eq old_commit_id (get_commit_id (s.heads branch.repo_id branch.name)))
      then (false, s)
      else if not t.updates
      then (false, s)
      else if not t.commits
      then (false, s)
      else (true, on_branch_updated branch (record s { heads = update_row branch s.heads }))
