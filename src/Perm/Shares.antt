-- ===== src/Perm/Shares.antt =====
-- `check_repo_share_perm_cb`, `check_group_permission_by_user` and `check_repo_share_permission` of
-- server/repo-perm.c.
use seafile_server.Base.{
  ℕ, ◌≡◌, refl, Bool, true, false, ◌||◌, Option, none, some, List, [], ◌∷◌, CString, codes, str_eq,
  str_eq_iff, if◌then◌else◌, arith,
}
use seafile_server.Perm.{PermEnv}

abbrev pub is_text : CString → Option CString → Bool
is_text text none = false
is_text text (some perm) = str_eq perm text

abbrev pub or_else : Option CString → Option CString → Option CString
or_else none second = second
or_else (some perm) second = some perm

-- The flag is false where the callback asks for no more rows.
unfoldable pub check_repo_share_perm_cb : Option CString → Option CString → Bool × Option CString
check_repo_share_perm_cb row orig_perm =
    if is_text (codes "rw") row
    then (false, row)
    else if is_text (codes "r") row
    then (true, or_else orig_perm row)
    else (true, orig_perm)

-- `seaf_db_statement_foreach_row`
unfoldable pub foreach_row : List (Option CString) → Option CString → Option CString
unfolding check_repo_share_perm_cb
foreach_row [] permission = permission
foreach_row (row ∷ rows) permission =
    let (more, found) = check_repo_share_perm_cb row permission in
    let rest = foreach_row rows found in if more then rest else found

abbrev pub by_groups : (List ℕ → List (Option CString)) → List ℕ → Option CString
by_groups rows [] = none
by_groups rows (group ∷ groups) = foreach_row (rows (group ∷ groups)) none

-- Some row has the text.
abbrev pub any_row : CString → List (Option CString) → Bool
any_row text [] = false
any_row text (row ∷ rows) = is_text text row || any_row text rows

-- What a user may do who is in groups with these rows.
abbrev pub strongest : List (Option CString) → Option CString
strongest rows =
    if any_row (codes "rw") rows
    then some (codes "rw")
    else if any_row (codes "r") rows
    then some (codes "r")
    else none

is_text-some : (text : CString) (row : Option CString) → is_text text row ≡ true → row ≡ some text
is_text-some text none h = cc
is_text-some text (some perm) h = ground (arith, str_eq_iff perm text)

foreach_row_kept :
    (rows : List (Option CString)) (perm : CString)
    → foreach_row rows (some perm)
      ≡ (if any_row (codes "rw") rows then some (codes "rw") else some perm)
unfolding foreach_row
foreach_row_kept [] perm = refl
foreach_row_kept (row ∷ rows) perm =
    ground (arith, foreach_row_kept rows perm, is_text-some (codes "rw") row)

foreach_row-strongest : (rows : List (Option CString)) → foreach_row rows none ≡ strongest rows
unfolding foreach_row
foreach_row-strongest [] = refl
foreach_row-strongest (row ∷ rows) = ground (
  arith,
  foreach_row-strongest rows,
  foreach_row_kept rows (codes "r"),
  is_text-some (codes "rw") row,
  is_text-some (codes "r") row,
)

module _ (P : PermEnv) where
  unfoldable pub check_group_permission_by_user : CString → CString → Option CString
  unfolding foreach_row
  check_group_permission_by_user repo_id user_name =
      by_groups (P.repo_group_rows repo_id) (P.get_groups_by_user user_name)

  -- The rows for the groups of a user.
  abbrev pub group_rows : CString → List ℕ → List (Option CString)
  group_rows repo_id [] = []
  group_rows repo_id (group ∷ groups) = P.repo_group_rows repo_id (group ∷ groups)

  by_groups-strongest :
      (repo_id : CString) (groups : List ℕ)
      → by_groups (P.repo_group_rows repo_id) groups ≡ strongest (group_rows repo_id groups)
  by_groups-strongest repo_id [] = refl
  by_groups-strongest repo_id (group ∷ groups) =
      foreach_row-strongest (P.repo_group_rows repo_id (group ∷ groups))

  -- The rows that the database hands out for the groups of a user are read in some order, and the
  -- reading stops at the first "rw". Whatever the order, the permission is "rw" if some row says
  -- so, "r" if some row says "r" and none "rw", and none otherwise or where there are no groups.
  pub check_group_permission-strongest :
      (repo_id user_name : CString)
      → check_group_permission_by_user repo_id user_name
        ≡ strongest (group_rows repo_id (P.get_groups_by_user user_name))
  unfolding check_group_permission_by_user
  check_group_permission-strongest repo_id user_name =
      by_groups-strongest repo_id (P.get_groups_by_user user_name)

  unfoldable pub check_repo_share_permission : CString → CString → Option CString
  unfolding check_group_permission_by_user
  check_repo_share_permission repo_id user_name =
      or_else (P.share_check_permission repo_id user_name) (
        or_else (check_group_permission_by_user repo_id user_name)
          (if P.cloud_mode then none else P.get_inner_pub_repo_perm repo_id))
