-- ===== src/Branch/Swap.antt =====
-- The update that tests the head, of common/branch-mgr.c, as a compare-and-swap of a row.
use seafile_server.Base.{
  ◌≡◌, ◌≢◌, refl, sym, ap, ◌∙◌, inl, inr, Bool, true, false, ◌&&◌, Option, none, some, [], CString,
  str_eq_iff, str_eq_refl, arith, Bool-cases, take,
}
use seafile_server.Branch.{
  Branch, Table, BranchState, Trans, put_row, update_row, get_commit_id, on_branch_updated,
  test_and_update_branch,
}

-- The database does all that is asked of it.
abbrev pub works : Trans → Bool
works t = t.begins && t.selects && t.updates && t.commits

-- The head of the branch, of 40 bytes.
abbrev pub Heads : BranchState → Branch → CString → Type 0
Heads s branch commit_id = s.heads branch.repo_id branch.name ≡ some commit_id

get_commit_id-some :
    (o : Option CString) (old : CString)
    → old ≢ []
    → get_commit_id o ≡ old
    → (c : CString) × (o ≡ some c) × (take 40 c ≡ old)
unfolding get_commit_id
get_commit_id-some none old ne h = absurd (ne (sym h))
get_commit_id-some (some c) old ne h = (c, refl, h)

module _ (is_virtual_repo : CString → Bool) where
  on_branch_updated-heads :
      (branch : Branch) (s : BranchState)
      → (on_branch_updated is_virtual_repo branch s).heads ≡ s.heads
  unfolding on_branch_updated
  on_branch_updated-heads branch s = ground arith

  update_row-present :
      (branch : Branch) (heads : Table) {c : CString}
      → heads branch.repo_id branch.name ≡ some c
      → update_row branch heads ≡ put_row branch heads
  unfolding update_row
  update_row-present branch heads {c} h = rw h refl

  -- Where the database works and the head is the one expected, the row is written.
  pub test_and_update_branch-success :
      (t : Trans) (branch : Branch) (old_commit_id : CString) (s : BranchState)
      → works t ≡ true
      → get_commit_id (s.heads branch.repo_id branch.name) ≡ old_commit_id
      → test_and_update_branch is_virtual_repo t branch old_commit_id s ≡ (
        true,
        on_branch_updated is_virtual_repo branch (record s { heads = update_row branch s.heads }),
      )
  unfolding test_and_update_branch
  test_and_update_branch-success t branch old_commit_id s w h =
      ground (arith, str_eq_iff old_commit_id (get_commit_id (s.heads branch.repo_id branch.name)))

  test_and_update_branch_passes :
      (t : Trans) (branch : Branch) (old_commit_id : CString) (s : BranchState)
      → (test_and_update_branch is_virtual_repo t branch old_commit_id s).0 ≡ true
      → (works t ≡ true) × (get_commit_id (s.heads branch.repo_id branch.name) ≡ old_commit_id)
  unfolding test_and_update_branch
  test_and_update_branch_passes t branch old_commit_id s h =
      ground (arith, str_eq_iff old_commit_id (get_commit_id (s.heads branch.repo_id branch.name)))

  -- Where the update that tests the head returns success for an old head that is not empty, the
  -- database did every step, the row of the branch was there with that head in its first 40
  -- bytes, and the table is the same but for that row, which has the new commit.
  pub test_and_update_branch_swaps :
      (t : Trans) (branch : Branch) (old_commit_id : CString) (s : BranchState)
      → old_commit_id ≢ []
      → (test_and_update_branch is_virtual_repo t branch old_commit_id s).0 ≡ true
      → (works t ≡ true)
        × (head : CString) × Heads s branch head
        × (take 40 head ≡ old_commit_id)
        × ((test_and_update_branch is_virtual_repo t branch old_commit_id s).1.heads
            ≡ put_row branch s.heads)
  test_and_update_branch_swaps t branch old_commit_id s ne h =
      let (w, eq) = test_and_update_branch_passes t branch old_commit_id s h in
      let (head, there, cut) =
        get_commit_id-some (s.heads branch.repo_id branch.name) old_commit_id ne eq in
      (
        w,
        head,
        there,
        cut,
        ap (λ (r : Bool × BranchState). r.1.heads)
              (test_and_update_branch-success t branch old_commit_id s w eq)
            ∙ on_branch_updated-heads branch (record s { heads = update_row branch s.heads })
            ∙ update_row-present branch s.heads there,
      )

  pub test_and_update_branch_refuses :
      (t : Trans) (branch : Branch) (old_commit_id : CString) (s : BranchState)
      → (test_and_update_branch is_virtual_repo t branch old_commit_id s).0 ≡ false
      → (test_and_update_branch is_virtual_repo t branch old_commit_id s).1 ≡ s
  unfolding test_and_update_branch
  test_and_update_branch_refuses t branch old_commit_id s h = ground arith

  put_row-same :
      (branch : Branch) (heads : Table)
      → put_row branch heads branch.repo_id branch.name ≡ some branch.commit_id
  unfolding put_row
  put_row-same branch heads = ground (arith, str_eq_refl branch.repo_id, str_eq_refl branch.name)

  -- A branch that has a head has the new one after it.
  pub test_and_update_branch-head :
      (t : Trans) (branch : Branch) (old_commit_id : CString) (s : BranchState) {row : CString}
      → s.heads branch.repo_id branch.name ≡ some row
      → (test_and_update_branch is_virtual_repo t branch old_commit_id s).0 ≡ true
      → (test_and_update_branch is_virtual_repo t branch old_commit_id s).1.heads branch.repo_id
          branch.name
        ≡ some branch.commit_id
  test_and_update_branch-head t branch old_commit_id s {row} there h =
      let (w, eq) = test_and_update_branch_passes t branch old_commit_id s h in
      ap (λ (r : Bool × BranchState). r.1.heads branch.repo_id branch.name)
        (test_and_update_branch-success t branch old_commit_id s w eq)
      ∙ ap (λ (hs : Table). hs branch.repo_id branch.name)
          (on_branch_updated-heads branch (record s { heads = update_row branch s.heads })
            ∙ update_row-present branch s.heads there)
      ∙ put_row-same branch s.heads

  -- Of two updates of one branch that expect one old head, which is not empty, the second is refused
  -- and changes nothing where the first succeeded, unless the first wrote that old head again.
  pub test_and_update_branch_race :
      (t u : Trans) (first second : Branch) (old_commit_id : CString) (s : BranchState)
      → old_commit_id ≢ []
      → second.repo_id ≡ first.repo_id
      → second.name ≡ first.name
      → take 40 first.commit_id ≢ old_commit_id
      → (test_and_update_branch is_virtual_repo t first old_commit_id s).0 ≡ true
      → test_and_update_branch is_virtual_repo u second old_commit_id
          (test_and_update_branch is_virtual_repo t first old_commit_id s).1
        ≡ (false, (test_and_update_branch is_virtual_repo t first old_commit_id s).1)
  unfolding get_commit_id
  test_and_update_branch_race t u first second old_commit_id s ne same_repo same_name changes h =
      let s' = (test_and_update_branch is_virtual_repo t first old_commit_id s).1 in
      let (w, head, there, cut, heads) =
        test_and_update_branch_swaps t first old_commit_id s ne h in
      let now : s'.heads second.repo_id second.name ≡ some first.commit_id =
        ap (λ (x : CString). s'.heads x second.name) same_repo
        ∙ ap (λ (x : CString). s'.heads first.repo_id x) same_name
        ∙ ap (λ (hs : Table). hs first.repo_id first.name) heads
        ∙ put_row-same first s.heads in
      elim (Bool-cases (test_and_update_branch is_virtual_repo u second old_commit_id s').0) [
        | inl ok ↦ absurd (
            changes (
              ap get_commit_id (sym now)
              ∙ (test_and_update_branch_passes u second old_commit_id s' ok).1))
        | inr refused ↦
            ap
              (λ (b : Bool).
                (b, (test_and_update_branch is_virtual_repo u second old_commit_id s').1))
              refused
            ∙ ap (λ (x : BranchState). (false, x))
                (test_and_update_branch_refuses u second old_commit_id s' refused)
      ]
