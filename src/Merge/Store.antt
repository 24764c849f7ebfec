-- ===== src/Merge/Store.antt =====
-- What a merge of common/merge-new.c does to the object store, at any depth and on every path.
use seafile_server.Base.{
  ℕ, zero, suc, ◌≤◌, ◌≡◌, ◌∙◌, ap, inl, inr, Option, none, some, List, [], CString, arith, true,
  Bool, false, if_rule, Option-cases, str_eq_iff, ◌||◌, if◌then◌else◌, ◌==◌,
}
use seafile_server.Fs.{Dirent, SeafDir, Objects, dir_new, dir_save, sort_dirents}
use seafile_server.Walk.{dirs_at, Three, Dents, Ptrs, first_name, dents_at, rests_at}
use seafile_server.Merge.{MergeEnv, MergeState, Rc, success, failure, out_of_fuel}
use seafile_server.Merge.Entries.{merge_entries}
use seafile_server.Merge.Dirs.{
  is_merging, load_dirs, load_dir, merge_sub_dirs, merge_directories, Plan, plan_at, drop_it,
  unreachable, keep_it, descend, loaded_sub, run_plan,
}
use seafile_server.Merge.Trees.{
  any_file, any_dir, merge_name, merge_loop, finish_tree, merge_trees_recursive, seaf_merge_trees,
  proceed, dir_version_from_repo_version, then_dirs, after_loop, merge_roots,
}

module _ (E : MergeEnv) where
  -- No stored object is changed or removed, the count of visited directories does not fall, and a
  -- conflict once noted stays noted.
  pub record Grows (s t : MergeState E) : Type 0 where
    pub keeps : (id : CString) (d : SeafDir) → s.objects id ≡ some d → t.objects id ≡ some d
    pub visits : s.visit_dirs ≤ t.visit_dirs
    pub conflict_stays : s.conflict ≡ true → t.conflict ≡ true

  pub Grows-refl : (s : MergeState E) → Grows s s
  Grows-refl s = record { keeps = λ id d e. e; visits = omega arith; conflict_stays = λ e. e }

  pub Grows-trans : {s t u : MergeState E} → Grows s t → Grows t u → Grows s u
  Grows-trans g h = record {
    keeps = λ id d e. h.keeps id d (g.keeps id d e);
    visits = omega (arith, g.visits, h.visits);
    conflict_stays = λ e. h.conflict_stays (g.conflict_stays e);
  }

  -- The objects are left as they are.
  pub record Leaves (s t : MergeState E) : Type 0 where
    pub same : t.objects ≡ s.objects
    visits : s.visit_dirs ≤ t.visit_dirs
    conflict_stays : s.conflict ≡ true → t.conflict ≡ true

  Leaves-Grows : {s t : MergeState E} → Leaves s t → Grows s t
  Leaves-Grows k = record {
    keeps = λ id d e. ap (λ (o : Objects). o id) k.same ∙ e;
    visits = k.visits;
    conflict_stays = k.conflict_stays;
  }

  entries-Leaves :
      (basedir : CString) (dents : Dents) (out : List Dirent) (s : MergeState E)
      → Leaves s (merge_entries E basedir dents out s).3
  unfolding merge_entries
  entries-Leaves basedir dents out s = ground arith

  pub load_dir-Leaves : (d : Option Dirent) (s : MergeState E) → Leaves s (load_dir E d s).2
  unfolding load_dir
  load_dir-Leaves d s = ground arith

  dir_save-keeps :
      (objects : Objects) (dir : SeafDir) (id : CString) (d : SeafDir)
      → objects id ≡ some d
      → (dir_save E.write_ok objects dir).1 id ≡ some d
  unfolding dir_save
  dir_save-keeps objects dir id d e = ground (arith, str_eq_iff id dir.dir_id)

  Leaves-trans : {s t u : MergeState E} → Leaves s t → Leaves t u → Leaves s u
  Leaves-trans g h = record {
    same = h.same ∙ g.same;
    visits = omega (arith, g.visits, h.visits);
    conflict_stays = λ e. h.conflict_stays (g.conflict_stays e);
  }

  pub load_dirs-Leaves :
      (dirs : Three (Option Dirent)) (s : MergeState E) → Leaves s (load_dirs E dirs s).2
  unfolding load_dirs
  load_dirs-Leaves dirs s = ground arith

  finish-Grows :
      (trees : Three (Option SeafDir)) (out : List Dirent) (s : MergeState E)
      → Grows s (finish_tree E trees out s).1
  unfolding finish_tree dir_save
  finish-Grows trees out s = record {
    keeps = λ id d e.
        let root =
          (dir_new E.checksum (sort_dirents out)
            (dir_version_from_repo_version E.version)).dir_id in
        ground (arith, str_eq_iff id root);
    visits = ground arith;
    conflict_stays = λ e. ground arith;
  }

  module _ (recurse : Three (Option SeafDir) → CString → MergeState E → Rc × MergeState E)
      (grows : (trees : Three (Option SeafDir)) (basedir : CString) (s : MergeState E)
        → Grows s (recurse trees basedir s).1) where
    loaded_sub-Grows :
        (basedir : CString) (dirs : Three (Option Dirent)) (out : List Dirent) (s : MergeState E)
        (l : Rc × Three (Option SeafDir) × MergeState E)
        → Grows s l.2
        → Grows s (loaded_sub E recurse basedir dirs out l).2
    loaded_sub-Grows basedir dirs out s (success, subs, t) g = Grows-trans g (grows subs _ t)
    loaded_sub-Grows basedir dirs out s (failure, subs, t) g = g
    loaded_sub-Grows basedir dirs out s (out_of_fuel, subs, t) g = g

    sub_dirs-Grows :
        (basedir : CString) (dirs : Three (Option Dirent)) (out : List Dirent) (s : MergeState E)
        → Grows s (merge_sub_dirs E recurse basedir dirs out s).2
    unfolding merge_sub_dirs
    sub_dirs-Grows basedir dirs out s =
        loaded_sub-Grows basedir dirs out s (load_dirs E dirs s)
          (Leaves-Grows (load_dirs-Leaves dirs s))

    run_plan-Grows :
        (p : Plan) (basedir : CString) (dirs : Three (Option Dirent)) (out : List Dirent)
        (s : MergeState E)
        → Grows s (run_plan E recurse p basedir dirs out s).2
    run_plan-Grows drop_it basedir dirs out s = Grows-refl s
    run_plan-Grows unreachable basedir dirs out s = Grows-refl s
    run_plan-Grows (keep_it d) basedir dirs out s = Grows-refl s
    run_plan-Grows descend basedir dirs out s = sub_dirs-Grows basedir dirs out s

    directories-Grows :
        (basedir : CString) (dents : Dents) (out : List Dirent) (s : MergeState E)
        → Grows s (merge_directories E recurse basedir dents out s).2
    unfolding merge_directories
    directories-Grows basedir dents out s =
        if_rule (λ x. Grows s x.2) (is_merging E)
          (run_plan E recurse (plan_at dents) basedir (dirs_at dents) out s)
          (merge_sub_dirs E recurse basedir (dirs_at dents) out s)
          (run_plan-Grows (plan_at dents) basedir (dirs_at dents) out s)
          (sub_dirs-Grows basedir (dirs_at dents) out s)

    then_dirs-Grows :
        (b : Bool) (basedir : CString) (s : MergeState E)
        (x : Rc × Dents × List Dirent × MergeState E)
        → Grows s x.3
        → Grows s (then_dirs E recurse b basedir x).2
    then_dirs-Grows true basedir s (success, dents, out, t) g =
        Grows-trans g (directories-Grows basedir dents out t)
    then_dirs-Grows false basedir s (success, dents, out, t) g = g
    then_dirs-Grows b basedir s (failure, dents, out, t) g = g
    then_dirs-Grows b basedir s (out_of_fuel, dents, out, t) g = g

    pub name-Grows :
        (basedir : CString) (dents : Dents) (out : List Dirent) (s : MergeState E)
        → Grows s (merge_name E recurse basedir dents out s).2
    unfolding merge_name
    name-Grows basedir dents out s =
        then_dirs-Grows (any_dir dents) basedir s
          (if any_file dents then merge_entries E basedir dents out s else (success, dents, out, s))
          (if_rule (λ x. Grows s x.3) (any_file dents) (merge_entries E basedir dents out s)
            (success, dents, out, s) (Leaves-Grows (entries-Leaves basedir dents out s))
            (Grows-refl s))

    proceed-Grows :
        (next : List Dirent → MergeState E → Rc × List Dirent × MergeState E) (s : MergeState E)
        (x : Rc × List Dirent × MergeState E)
        → ((out : List Dirent) (t : MergeState E) → Grows t (next out t).2)
        → Grows s x.2
        → Grows s (proceed E recurse next x).2
    proceed-Grows next s (success, out, t) h g = Grows-trans g (h out t)
    proceed-Grows next s (failure, out, t) h g = g
    proceed-Grows next s (out_of_fuel, out, t) h g = g

    pub loop-Grows :
        (left : ℕ) (basedir : CString) (p : Ptrs) (out : List Dirent) (s : MergeState E)
        → Grows s (merge_loop E recurse left basedir p out s).2
    unfolding merge_loop
    loop-Grows zero basedir p out s = elim (Option-cases (first_name p)) [
      | inl e ↦ rw (e, merge_loop) (Grows-refl s)
      | inr (m, e) ↦ rw (e, merge_loop) (Grows-refl s)
    ]
    loop-Grows (suc left) basedir p out s = elim (Option-cases (first_name p)) [
      | inl e ↦ rw (e, merge_loop) (Grows-refl s)
      | inr (m, e) ↦
          rw (e, merge_loop)
            (proceed-Grows (merge_loop E recurse left basedir (rests_at m p)) s _
              (loop-Grows left basedir (rests_at m p)) (name-Grows basedir (dents_at m p) out s))
    ]

  after_loop-Grows :
      (trees : Three (Option SeafDir)) (s : MergeState E) (x : Rc × List Dirent × MergeState E)
      → Grows s x.2
      → Grows s (after_loop E trees x).1
  after_loop-Grows trees s (success, out, t) g =
      if_rule (λ x. Grows s x.1) (is_merging E) (finish_tree E trees out t) (success, t)
        (Grows-trans g (finish-Grows trees out t)) g
  after_loop-Grows trees s (failure, out, t) g = g
  after_loop-Grows trees s (out_of_fuel, out, t) g = g

  pub recursive-Grows :
      (depth : ℕ) (trees : Three (Option SeafDir)) (basedir : CString) (s : MergeState E)
      → Grows s (merge_trees_recursive E depth trees basedir s).1
  unfolding merge_trees_recursive
  recursive-Grows zero trees basedir s = Grows-refl s
  recursive-Grows (suc depth) trees basedir s =
      after_loop-Grows trees s _
        (loop-Grows (merge_trees_recursive E depth) (recursive-Grows depth) _ basedir _ [] s)

  roots-Grows :
      (depth : ℕ) (t0 t1 : Option SeafDir) (t2 : Option (Option SeafDir)) (s : MergeState E)
      → Grows s (merge_roots E depth t0 t1 t2 s).1
  roots-Grows depth (some t0) (some t1) (some t2) s = recursive-Grows depth _ [] s
  roots-Grows depth none t1 t2 s = Grows-refl s
  roots-Grows depth (some t0) none t2 s = Grows-refl s
  roots-Grows depth (some t0) (some t1) none s = Grows-refl s

  -- Whatever the merge returns and at whatever depth it stops: no object of the store is changed
  -- or removed, the count of visited directories does not fall, and a conflict noted before stays
  -- noted.
  pub seaf_merge_trees-Grows :
      (depth : ℕ) (roots : Three CString) (s : MergeState E)
      → Grows s (seaf_merge_trees E depth roots s).1
  unfolding seaf_merge_trees
  seaf_merge_trees-Grows depth roots s =
      if_rule {A = Rc × MergeState E} (λ x. Grows s x.1) (E.n == 2 || E.n == 3) _ (failure, s)
        (roots-Grows depth _ _ _ s) (Grows-refl s)
