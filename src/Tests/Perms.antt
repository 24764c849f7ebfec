-- ===== src/Tests/Perms.antt =====
-- Permissions and pages in a small set of shares.
use seafile_server.Base.{
  ◌≡◌, refl, false, none, some, [], ◌∷◌, codes, All, str_eq, if◌then◌else◌, arith,
}
use seafile_server.Perm.{PermEnv, VirtRepo}
use seafile_server.Perm.Shares.{
  check_group_permission_by_user, strongest, group_rows, check_group_permission-strongest,
}
use seafile_server.Perm.Dirs.{found, NoSlash, nearest, get_dir_perm, get_dir_perm-nearest}
use seafile_server.Perm.Repos.{
  seaf_repo_manager_check_permission, first_of, owned, shared, group_dirs, check_permission-owned,
  check_permission-virtual,
}
use seafile_server.Perm.Listing.{
  pos, Repo, ListEnv, listed, listed_as, sort_listed, sub_dirs, list_dir_with_perm,
}
use seafile_server.Perm.Pages.{page, shown, list_dir-page}
use seafile_server.Tests.Trees.{head_dir, store}
use seafile_server.Tests.Merges.{head_loads}

abbrev part : VirtRepo
part = record { origin_repo_id = codes "repo"; path = codes "/a/b" }

-- "bob" reads the directory "/a" of "repo", and his groups read and write "repo".
abbrev shares : PermEnv
shares = record {
  cloud_mode = false;
  get_repo_owner = λ repo_id. some (codes "ann");
  get_virtual_repo_info = λ repo_id. if str_eq repo_id (codes "part") then some part else none;
  share_check_permission = λ repo_id user. none;
  get_inner_pub_repo_perm = λ repo_id. none;
  get_groups_by_user = λ user. 4 ∷ [];
  repo_group_rows = λ repo_id groups. some (codes "r") ∷ some (codes "rw") ∷ [];
  get_shared_dirs_to_user = λ repo_id user. some ((codes "/a", codes "r") ∷ []);
  get_shared_dirs_to_group = λ repo_id groups. none;
}

names_NoSlash : All NoSlash (codes "b" ∷ codes "a" ∷ [])
names_NoSlash = ((refl, tt), ((refl, tt), tt))

get_dir_perm-nearest_example :
    get_dir_perm ((codes "/a", codes "r") ∷ []) (codes "/a/b")
    ≡ nearest ((codes "/a", codes "r") ∷ []) (codes "b" ∷ codes "a" ∷ [])
get_dir_perm-nearest_example =
    get_dir_perm-nearest ((codes "/a", codes "r") ∷ []) (codes "b" ∷ codes "a" ∷ []) names_NoSlash

check_group_permission-strongest_example :
    check_group_permission_by_user shares (codes "repo") (codes "bob")
    ≡ strongest (group_rows shares (codes "repo") (4 ∷ []))
check_group_permission-strongest_example =
    check_group_permission-strongest shares (codes "repo") (codes "bob")

is_plain : shares.get_virtual_repo_info (codes "repo") ≡ none
unfolding str_eq
is_plain = refl

is_part : shares.get_virtual_repo_info (codes "part") ≡ some part
unfolding str_eq
is_part = refl

check_permission-owned_example :
    seaf_repo_manager_check_permission shares (codes "repo") (codes "bob")
    ≡ first_of
        (owned shares (codes "repo") (codes "bob") ∷ shared shares (codes "repo") (codes "bob"))
check_permission-owned_example =
    check_permission-owned shares (codes "repo") (codes "bob") (codes "ann") is_plain refl

check_permission-virtual_example :
    seaf_repo_manager_check_permission shares (codes "part") (codes "bob")
    ≡ first_of (
        owned shares (codes "repo") (codes "bob")
        ∷ nearest ((codes "/a", codes "r") ∷ []) (codes "b" ∷ codes "a" ∷ [])
        ∷ nearest (group_dirs shares (codes "repo") (4 ∷ [])) (codes "b" ∷ codes "a" ∷ [])
        ∷ shared shares (codes "repo") (codes "bob"))
check_permission-virtual_example =
    check_permission-virtual shares (codes "part") (codes "bob") part (codes "b" ∷ codes "a" ∷ [])
      ((codes "/a", codes "r") ∷ []) is_part refl names_NoSlash refl

abbrev home : Repo
home = record { store_id = codes "repo"; version = 1; is_virtual = false }

abbrev listing : ListEnv
listing = record {
  get_repo = λ repo_id. some home;
  objects = λ store_id. store;
  get_shared_sub_dirs = λ store_id path. none;
}

bob_writes :
    seaf_repo_manager_check_permission shares (codes "repo") (codes "bob") ≡ found (codes "rw")
unfolding seaf_repo_manager_check_permission str_eq
bob_writes = refl

list_dir-page_example :
    list_dir_with_perm shares listing
      (codes "repo")
      (codes "/")
      head_dir.dir_id
      (codes "bob")
      (pos 1)
      (pos 2)
    ≡ listed (
        shown
          (listed_as
            (codes "rw")
            (sub_dirs shares listing (codes "repo") (codes "/") (codes "bob") home)
            (codes "/"))
          (page 1 (pos 2) (sort_listed head_dir.entries)))
list_dir-page_example =
    list_dir-page shares listing (codes "repo") (codes "/") head_dir.dir_id (codes "bob")
      (codes "rw") (pos 1) (pos 2) bob_writes refl head_loads (omega arith)
