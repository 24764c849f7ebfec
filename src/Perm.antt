-- ===== src/Perm.antt =====
-- Access to a library, server/repo-perm.c: the tables of shares that it asks, and the functions that
-- find the permission of a user. A permission is a text such as "rw" or "r".
pub mod Shares
pub mod Dirs
pub mod Repos
pub mod Listing
pub mod Pages
use seafile_server.Base.{ℕ, Bool, Option, List, CString}

-- `SeafVirtRepo`: a library that is a directory of another one.
pub record VirtRepo : Type 0 where
  pub origin_repo_id : CString
  pub path : CString

-- A hash table from the paths of directories to permissions.
abbrev pub DirPerms : Type 0
DirPerms = List (CString × CString)

-- What the other managers answer.
pub record PermEnv : Type 0 where
  -- `seaf->cloud_mode`
  pub cloud_mode : Bool
  -- `seaf_repo_manager_get_repo_owner` and `seaf_repo_manager_get_virtual_repo_info`
  pub get_repo_owner : CString → Option CString
  pub get_virtual_repo_info : CString → Option VirtRepo
  -- `seaf_share_manager_check_permission`, of a library and a user
  pub share_check_permission : CString → CString → Option CString
  -- `seaf_repo_manager_get_inner_pub_repo_perm`
  pub get_inner_pub_repo_perm : CString → Option CString
  -- `ccnet_group_manager_get_groups_by_user`: an empty list is NULL
  pub get_groups_by_user : CString → List ℕ
  -- the column `permission` of the rows of `RepoGroup` for a library and some groups, in the order
  -- in which the database hands them out, up to an error if there is one
  pub repo_group_rows : CString → List ℕ → List (Option CString)
  -- `seaf_share_manager_get_shared_dirs_to_user` and `…_to_group`, of the origin library
  pub get_shared_dirs_to_user : CString → CString → Option DirPerms
  pub get_shared_dirs_to_group : CString → List ℕ → Option DirPerms
