-- ===== src/Perm/Repos.antt =====
-- `check_perm_on_parent_repo`, `check_virtual_repo_permission` and
-- `seaf_repo_manager_check_permission` of server/repo-perm.c. NULL is `missing`.
use seafile_server.Base.{
  ℕ, ◌≡◌, refl, sym, Bool, true, false, Option, none, some, List, [], ◌∷◌, CString, codes, str_eq,
  if◌then◌else◌, All,
}
use seafile_server.Perm.{PermEnv, VirtRepo, DirPerms}
use seafile_server.Perm.Shares.{
  check_repo_share_permission, strongest, is_text, or_else, group_rows,
  check_group_permission-strongest,
}
use seafile_server.Perm.Dirs.{
  Found, found, missing, null_slash, out_of_fuel, get_dir_perm, lookup_perm, path_of, NoSlash,
  nearest, get_dir_perm-nearest,
}

abbrev pub of_option : Option CString → Found
of_option none = missing
of_option (some perm) = found perm

-- `if (perm) return perm;` before the next search.
abbrev pub then_try : Found → Found → Found
then_try missing second = second
then_try first second = first

-- A table with no entries is not searched.
abbrev in_dirs : CString → DirPerms → Found
in_dirs vpath [] = missing
in_dirs vpath (p ∷ perms) = get_dir_perm (p ∷ perms) vpath

abbrev in_table : CString → Option DirPerms → Found
in_table vpath none = missing
in_table vpath (some perms) = in_dirs vpath perms

abbrev in_group_dirs : CString → (List ℕ → Option DirPerms) → List ℕ → Found
in_group_dirs vpath table [] = missing
in_group_dirs vpath table (group ∷ groups) = in_table vpath (table (group ∷ groups))

abbrev after_user_dirs : CString → Option DirPerms → Found → Found
after_user_dirs vpath none group_perm = missing
after_user_dirs vpath (some user_perms) group_perm = then_try (in_dirs vpath user_perms) group_perm

abbrev dirs_of : Option DirPerms → DirPerms
dirs_of none = []
dirs_of (some perms) = perms

module _ (P : PermEnv) where
  unfoldable pub check_perm_on_parent_repo : CString → CString → CString → Found
  unfolding get_dir_perm
  check_perm_on_parent_repo origin_repo_id user vpath =
      after_user_dirs vpath (P.get_shared_dirs_to_user origin_repo_id user) (
        in_group_dirs vpath (P.get_shared_dirs_to_group origin_repo_id) (P.get_groups_by_user user))

  unfoldable pub check_virtual_repo_permission : CString → CString → CString → Found
  unfolding check_perm_on_parent_repo check_repo_share_permission
  check_virtual_repo_permission origin_repo_id user vpath =
      if is_text user (P.get_repo_owner origin_repo_id)
      then found (codes "rw")
      else then_try (check_perm_on_parent_repo origin_repo_id user vpath)
          (of_option (check_repo_share_permission P origin_repo_id user))

  abbrev own_permission : CString → CString → Option CString → Found
  own_permission repo_id user none = missing
  own_permission repo_id user (some owner) =
      if str_eq owner user
      then found (codes "rw")
      else of_option (check_repo_share_permission P repo_id user)

  abbrev by_vinfo : CString → CString → Option VirtRepo → Found
  by_vinfo repo_id user none = own_permission repo_id user (P.get_repo_owner repo_id)
  by_vinfo repo_id user (some vinfo) =
      check_virtual_repo_permission vinfo.origin_repo_id user vinfo.path

  unfoldable pub seaf_repo_manager_check_permission : CString → CString → Found
  unfolding check_virtual_repo_permission check_repo_share_permission
  seaf_repo_manager_check_permission repo_id user =
      by_vinfo repo_id user (P.get_virtual_repo_info repo_id)

  -- The candidates for a permission, in the order of their priority.
  abbrev pub owned : CString → CString → Found
  owned repo_id user =
      if is_text user (P.get_repo_owner repo_id) then found (codes "rw") else missing

  abbrev pub shared : CString → CString → List Found
  shared repo_id user =
      of_option (P.share_check_permission repo_id user)
      ∷ of_option (strongest (group_rows P repo_id (P.get_groups_by_user user)))
      ∷ of_option (if P.cloud_mode then none else P.get_inner_pub_repo_perm repo_id)
      ∷ []

  -- The shared directories of the groups; none where there are no groups or no table.
  abbrev pub group_dirs : CString → List ℕ → DirPerms
  group_dirs origin [] = []
  group_dirs origin (group ∷ groups) = dirs_of (P.get_shared_dirs_to_group origin (group ∷ groups))

-- The first of the candidates that gives a permission.
abbrev pub first_of : List Found → Found
first_of [] = missing
first_of (candidate ∷ candidates) = then_try candidate (first_of candidates)

of_option-or_else :
    (a b : Option CString) → of_option (or_else a b) ≡ then_try (of_option a) (of_option b)
of_option-or_else none b = refl
of_option-or_else (some perm) b = refl

then_try-missing : (a : Found) → then_try a missing ≡ a
then_try-missing missing = refl
then_try-missing (found perm) = refl
then_try-missing null_slash = refl
then_try-missing out_of_fuel = refl

then_try_assoc : (a b c : Found) → then_try (then_try a b) c ≡ then_try a (then_try b c)
then_try_assoc missing b c = refl
then_try_assoc (found perm) b c = refl
then_try_assoc null_slash b c = refl
then_try_assoc out_of_fuel b c = refl

if_try :
    (test : Bool) (perm : CString) (second : Found)
    → (if test then found perm else second) ≡ then_try (if test then found perm else missing) second
if_try true perm second = refl
if_try false perm second = refl

nearest_none : (names : List CString) → nearest [] names ≡ missing
unfolding lookup_perm
nearest_none [] = refl
nearest_none (name ∷ above) = nearest_none above

in_dirs-nearest :
    (perms : DirPerms) (names : List CString)
    → All NoSlash names
    → in_dirs (path_of names) perms ≡ nearest perms names
in_dirs-nearest [] names h = sym (nearest_none names)
in_dirs-nearest (p ∷ perms) names h = get_dir_perm-nearest (p ∷ perms) names h

in_table-nearest :
    (table : Option DirPerms) (names : List CString)
    → All NoSlash names
    → in_table (path_of names) table ≡ nearest (dirs_of table) names
in_table-nearest none names h = sym (nearest_none names)
in_table-nearest (some perms) names h = in_dirs-nearest perms names h

module _ (P : PermEnv) where
  share_permission :
      (repo_id user : CString)
      → of_option (check_repo_share_permission P repo_id user) ≡ first_of (shared P repo_id user)
  unfolding check_repo_share_permission
  share_permission repo_id user =
      rw (of_option-or_else, of_option-or_else, check_group_permission-strongest, then_try-missing)
        refl

  -- For a library that has an owner and is no part of another one, the permission is the first of
  -- these that there is: "rw" for the owner; what is shared with the user; the strongest of what is
  -- shared with the user's groups; and the public permission, unless the server is in cloud mode.
  pub check_permission-owned :
      (repo_id user owner : CString)
      → P.get_virtual_repo_info repo_id ≡ none
      → P.get_repo_owner repo_id ≡ some owner
      → seaf_repo_manager_check_permission P repo_id user
        ≡ first_of (owned P repo_id user ∷ shared P repo_id user)
  unfolding seaf_repo_manager_check_permission
  check_permission-owned repo_id user owner plain has_owner =
      rw (plain, has_owner, share_permission repo_id user)
        (if_try (str_eq owner user) (codes "rw") _)

  in_group_dirs-nearest :
      (origin : CString) (groups : List ℕ) (names : List CString)
      → All NoSlash names
      → in_group_dirs (path_of names) (P.get_shared_dirs_to_group origin) groups
        ≡ nearest (group_dirs P origin groups) names
  in_group_dirs-nearest origin [] names h = sym (nearest_none names)
  in_group_dirs-nearest origin (group ∷ groups) names h =
      in_table-nearest (P.get_shared_dirs_to_group origin (group ∷ groups)) names h

  -- For a library that is a directory of another one, at a path of a slash and a name any number of
  -- times, where the directories shared with the user can be read: the permission is the first of
  -- these that there is: "rw" for the owner of the other library; that of the nearest directory
  -- shared with the user, at the path or above; the same for the groups; and then what the user has
  -- on the other library as a whole.
  pub check_permission-virtual :
      (repo_id user : CString) (vinfo : VirtRepo) (names : List CString) (user_dirs : DirPerms)
      → P.get_virtual_repo_info repo_id ≡ some vinfo
      → vinfo.path ≡ path_of names
      → All NoSlash names
      → P.get_shared_dirs_to_user vinfo.origin_repo_id user ≡ some user_dirs
      → let origin = vinfo.origin_repo_id in
        seaf_repo_manager_check_permission P repo_id user
        ≡ first_of (
            owned P origin user
            ∷ nearest user_dirs names
            ∷ nearest (group_dirs P origin (P.get_groups_by_user user)) names
            ∷ shared P origin user)
  unfolding seaf_repo_manager_check_permission check_virtual_repo_permission
      check_perm_on_parent_repo
  check_permission-virtual repo_id user vinfo names user_dirs virtual at_path slashes readable =
      rw
        (
          virtual,
          at_path,
          readable,
          share_permission,
          in_dirs-nearest user_dirs names slashes,
          in_group_dirs-nearest vinfo.origin_repo_id (P.get_groups_by_user user) names slashes,
          then_try_assoc,
        )
        (if_try (is_text user (P.get_repo_owner vinfo.origin_repo_id)) (codes "rw") _)
