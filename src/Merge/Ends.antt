-- ===== src/Merge/Ends.antt =====
-- The recursion of `merge_trees_recursive` in common/merge-new.c ends at the depth of the stored
-- trees.
use mathlib.Core.Path.{subst}
use seafile_server.Base.{
  ℕ, zero, suc, ◌≤◌, ◌≡◌, refl, sym, ◌≢◌, inl, inr, Option, none, some, List, [], CString, arith,
  All, true, Bool, false, Option-cases, if_rule, ◌||◌, if◌then◌else◌, ◌==◌,
}
use seafile_server.Fs.{Dirent, SeafDir, Objects}
use seafile_server.Walk.{
  dirs_at, Three, three, Dents, Ptrs, first_name, rest_at, dents_at, rests_at, rounds,
}
use seafile_server.Merge.{MergeEnv, MergeState, Rc, success, failure, out_of_fuel}
use seafile_server.Merge.Entries.{merge_entries}
use seafile_server.Merge.Dirs.{
  is_merging, load_dirs, merge_sub_dirs, merge_directories, Plan, plan_at, drop_it, unreachable,
  keep_it, descend, loaded_sub, run_plan,
}
use seafile_server.Merge.Trees.{
  any_file, any_dir, merge_name, merge_loop, finish_tree, merge_trees_recursive, seaf_merge_trees,
  proceed, then_dirs, after_loop, merge_roots, third_root,
}
use seafile_server.Walk.Rounds.{rounds-rests_at}
use seafile_server.Merge.Depth.{GoodDent-shape, entries-shape, load_dirs-Good, shape, LoadedGood}
use seafile_server.Walk.Depth.{
  Shallow, GoodEntry, GoodTree, GoodDent, All3, GoodList-Keeps, dent_at-Good, rest_at-Good,
  dir_of-Good, GoodTree-entries, Shallow-GoodTree,
}
use seafile_server.Merge.Store.{Grows, name-Grows, recursive-Grows}

module _ (E : MergeEnv) where
  -- What the merge of sub-trees promises one level up.
  abbrev Ends : ℕ → (Three (Option SeafDir) → CString → MergeState E → Rc × MergeState E) → Type 0
  Ends zero recurse = Unit
  Ends (suc depth) recurse =
      (subs : Three (Option SeafDir)) (basedir : CString) (t : MergeState E)
      → All3 (GoodTree E.version t.objects depth) subs
      → (recurse subs basedir t).0 ≢ out_of_fuel

  module _ (recurse : Three (Option SeafDir) → CString → MergeState E → Rc × MergeState E)
      (grows : (trees : Three (Option SeafDir)) (basedir : CString) (s : MergeState E)
        → Grows E s (recurse trees basedir s).1) where
    loaded_sub-Ends :
        (depth : ℕ) (basedir : CString) (dirs : Three (Option Dirent)) (out : List Dirent)
        (o : Objects) (l : Rc × Three (Option SeafDir) × MergeState E)
        → Ends (suc depth) recurse
        → LoadedGood E o depth l
        → (loaded_sub E recurse basedir dirs out l).0 ≢ out_of_fuel
    loaded_sub-Ends depth basedir dirs out o (success, subs, t) ends (k, ok, q) =
        ends subs _ t (subst (λ (x : Objects). All3 (GoodTree E.version x depth) subs) (sym q) k)
    loaded_sub-Ends depth basedir dirs out o (failure, subs, t) ends (k, ok, q) = ok
    loaded_sub-Ends depth basedir dirs out o (out_of_fuel, subs, t) ends (k, ok, q) = ok

    directories-Ends :
        (depth : ℕ) (basedir : CString) (dents : Dents) (out : List Dirent) (s : MergeState E)
        → Ends (suc depth) recurse
        → All3 (GoodDent E.version s.objects (suc depth)) dents
        → (merge_directories E recurse basedir dents out s).0 ≢ out_of_fuel
    unfolding merge_directories merge_sub_dirs
    directories-Ends depth basedir dents out s ends h =
        if_rule (λ x. x.0 ≢ out_of_fuel) (is_merging E)
          (run_plan E recurse (plan_at dents) basedir (dirs_at dents) out s)
          (merge_sub_dirs E recurse basedir (dirs_at dents) out s) (by_plan (plan_at dents)) sub
      where
        sub : (merge_sub_dirs E recurse basedir (dirs_at dents) out s).0 ≢ out_of_fuel
        sub =
            loaded_sub-Ends depth basedir (dirs_at dents) out s.objects
              (load_dirs E (dirs_at dents) s) ends
              (load_dirs-Good E depth (dirs_at dents) s (
                dir_of-Good E.version s.objects (suc depth) dents.s0 h.0,
                dir_of-Good E.version s.objects (suc depth) dents.s1 h.1,
                dir_of-Good E.version s.objects (suc depth) dents.s2 h.2,
              ))

        by_plan : (p : Plan) → (run_plan E recurse p basedir (dirs_at dents) out s).0 ≢ out_of_fuel
        by_plan drop_it = λ e. cc
        by_plan unreachable = λ e. cc
        by_plan (keep_it d) = λ e. cc
        by_plan descend = sub

    -- Without directories there is nothing to go down to.
    any_dir-none :
        (o : Objects) (dents : Dents) → All3 (GoodDent E.version o 0) dents → any_dir dents ≡ false
    unfolding any_dir
    any_dir-none o dents h = ground arith

    then_dirs-Ends :
        (depth : ℕ) (b : Bool) (basedir : CString) (x : Rc × Dents × List Dirent × MergeState E)
        → Ends (suc depth) recurse
        → x.0 ≢ out_of_fuel
        → All3 (GoodDent E.version x.3.objects (suc depth)) x.1
        → (then_dirs E recurse b basedir x).0 ≢ out_of_fuel
    then_dirs-Ends depth true basedir (success, dents, out, s) ends ok h =
        directories-Ends depth basedir dents out s ends h
    then_dirs-Ends depth false basedir (success, dents, out, s) ends ok h = ok
    then_dirs-Ends depth b basedir (failure, dents, out, s) ends ok h = ok
    then_dirs-Ends depth b basedir (out_of_fuel, dents, out, s) ends ok h = ok

    then_none-ends :
        (basedir : CString) (x : Rc × Dents × List Dirent × MergeState E)
        → x.0 ≢ out_of_fuel
        → (then_dirs E recurse false basedir x).0 ≢ out_of_fuel
    then_none-ends basedir (success, dents, out, s) ok = ok
    then_none-ends basedir (failure, dents, out, s) ok = ok
    then_none-ends basedir (out_of_fuel, dents, out, s) ok = ok

    abbrev files_first :
        CString → Dents → List Dirent → MergeState E → Rc × Dents × List Dirent × MergeState E
    files_first basedir dents out s =
        if any_file dents then merge_entries E basedir dents out s else (success, dents, out, s)

    files_first-Good :
        (depth : ℕ) (basedir : CString) (dents : Dents) (out : List Dirent) (s : MergeState E)
        → All3 (GoodDent E.version s.objects depth) dents
        → ((files_first basedir dents out s).0 ≢ out_of_fuel)
          × All3
              (GoodDent E.version (files_first basedir dents out s).3.objects depth)
              (files_first basedir dents out s).1
    files_first-Good depth basedir dents out s (h0, h1, h2) =
        if_rule (λ x. (x.0 ≢ out_of_fuel) × All3 (GoodDent E.version x.3.objects depth) x.1)
          (any_file dents) (merge_entries E basedir dents out s) (success, dents, out, s)
          (let (q0, q1, q2, ok, same) = entries-shape E basedir dents out s in
            let o = (merge_entries E basedir dents out s).3.objects in
            let good =
              λ (d e : Option Dirent) (q : shape e ≡ shape d)
                  (h : GoodDent E.version s.objects depth d).
                subst (λ (x : Objects). GoodDent E.version x depth e) (sym same)
                  (GoodDent-shape E.version s.objects depth d e q h) in
            (ok, (good _ _ q0 h0, good _ _ q1 h1, good _ _ q2 h2)))
          (λ (e : success ≡ out_of_fuel). cc, (h0, h1, h2))

    name-Ends :
        (depth : ℕ) (basedir : CString) (dents : Dents) (out : List Dirent) (s : MergeState E)
        → Ends depth recurse
        → All3 (GoodDent E.version s.objects depth) dents
        → (merge_name E recurse basedir dents out s).0 ≢ out_of_fuel
    unfolding merge_name
    name-Ends zero basedir dents out s ends h =
        rw (any_dir-none s.objects dents h)
          (then_none-ends basedir _ (files_first-Good zero basedir dents out s h).0)
    name-Ends (suc depth) basedir dents out s ends h =
        let (ok, good) = files_first-Good (suc depth) basedir dents out s h in
        then_dirs-Ends depth (any_dir dents) basedir (files_first basedir dents out s) ends ok good

    proceed-ends :
        (next : List Dirent → MergeState E → Rc × List Dirent × MergeState E)
        (x : Rc × List Dirent × MergeState E)
        → x.0 ≢ out_of_fuel
        → (next x.1 x.2).0 ≢ out_of_fuel
        → (proceed E recurse next x).0 ≢ out_of_fuel
    proceed-ends next (success, out, t) ok h = h
    proceed-ends next (failure, out, t) ok h = ok
    proceed-ends next (out_of_fuel, out, t) ok h = ok

    abbrev GoodPtrs : Objects → ℕ → Ptrs → Type 0
    GoodPtrs o depth = All3 (All (GoodEntry E.version o depth))

    loop-Ends :
        (depth left : ℕ) (basedir : CString) (p : Ptrs) (out : List Dirent) (s : MergeState E)
        → Ends depth recurse
        → GoodPtrs s.objects depth p
        → rounds p ≤ left
        → (merge_loop E recurse left basedir p out s).0 ≢ out_of_fuel
    unfolding merge_loop
    loop-Ends depth zero basedir p out s ends h le = elim (Option-cases (first_name p)) [
      | inl e ↦ rw (e, merge_loop) (λ (bad : success ≡ out_of_fuel). cc)
      | inr (m, e) ↦ absurd (omega (arith, rounds-rests_at m p e))
    ]
    loop-Ends depth (suc left) basedir p out s ends h le = elim (Option-cases (first_name p)) [
      | inl e ↦ rw (e, merge_loop) (λ (bad : success ≡ out_of_fuel). cc)
      | inr (m, e) ↦
          let t = (merge_name E recurse basedir (dents_at m p) out s).2 in
          let kept = (name-Grows E recurse grows basedir (dents_at m p) out s).keeps in
          let rest = λ (l : List Dirent) (g : All (GoodEntry E.version s.objects depth) l).
            GoodList-Keeps E.version s.objects t.objects depth (rest_at m l) kept
              (rest_at-Good E.version s.objects depth m l g) in
          rw (e, merge_loop)
            (proceed-ends (merge_loop E recurse left basedir (rests_at m p)) _
              (name-Ends depth basedir (dents_at m p) out s ends (
                dent_at-Good E.version s.objects depth m p.s0 h.0,
                dent_at-Good E.version s.objects depth m p.s1 h.1,
                dent_at-Good E.version s.objects depth m p.s2 h.2,
              ))
              (loop-Ends depth left basedir (rests_at m p) _ t ends
                (rest p.s0 h.0, rest p.s1 h.1, rest p.s2 h.2)
                (omega (arith, rounds-rests_at m p e))))
    ]

  finish-ends :
      (trees : Three (Option SeafDir)) (out : List Dirent) (s : MergeState E)
      → (finish_tree E trees out s).0 ≢ out_of_fuel
  unfolding finish_tree
  finish-ends trees out s = ground arith

  after_loop-ends :
      (trees : Three (Option SeafDir)) (x : Rc × List Dirent × MergeState E)
      → x.0 ≢ out_of_fuel
      → (after_loop E trees x).0 ≢ out_of_fuel
  after_loop-ends trees (success, out, s) ok =
      if_rule {A = Rc × MergeState E} (λ x. x.0 ≢ out_of_fuel) (is_merging E)
        (finish_tree E trees out s) (success, s) (finish-ends trees out s) ok
  after_loop-ends trees (failure, out, s) ok = ok
  after_loop-ends trees (out_of_fuel, out, s) ok = ok

  level-Ends :
      (depth : ℕ) (trees : Three (Option SeafDir)) (basedir : CString) (s : MergeState E)
      → Ends depth (merge_trees_recursive E depth)
      → All3 (GoodTree E.version s.objects depth) trees
      → (merge_trees_recursive E (suc depth) trees basedir s).0 ≢ out_of_fuel
  unfolding merge_trees_recursive
  level-Ends depth trees basedir s ends h = after_loop-ends trees _ (
      loop-Ends (merge_trees_recursive E depth) (recursive-Grows E depth) depth _ basedir _ [] s
        ends
        (
          GoodTree-entries E.version s.objects depth trees.s0 h.0,
          GoodTree-entries E.version s.objects depth trees.s1 h.1,
          GoodTree-entries E.version s.objects depth trees.s2 h.2,
        )
        (omega arith))

  recursive-ends :
      (depth : ℕ) (trees : Three (Option SeafDir)) (basedir : CString) (s : MergeState E)
      → All3 (GoodTree E.version s.objects depth) trees
      → (merge_trees_recursive E (suc depth) trees basedir s).0 ≢ out_of_fuel
  recursive-ends zero trees basedir s h = level-Ends zero trees basedir s tt h
  recursive-ends (suc depth) trees basedir s h =
      level-Ends (suc depth) trees basedir s (λ subs b t g. recursive-ends depth subs b t g) h

  merge_roots-ends :
      (depth : ℕ) (t0 t1 : Option SeafDir) (t2 : Option (Option SeafDir)) (s : MergeState E)
      → GoodTree E.version s.objects depth t0
      → GoodTree E.version s.objects depth t1
      → ((t : Option SeafDir) → t2 ≡ some t → GoodTree E.version s.objects depth t)
      → (merge_roots E (suc depth) t0 t1 t2 s).0 ≢ out_of_fuel
  merge_roots-ends depth (some t0) (some t1) (some t2) s g0 g1 g2 =
      recursive-ends depth (three (some t0) (some t1) t2) [] s (g0, g1, g2 t2 refl)
  merge_roots-ends depth none t1 t2 s g0 g1 g2 = λ h. cc
  merge_roots-ends depth (some t0) none t2 s g0 g1 g2 = λ h. cc
  merge_roots-ends depth (some t0) (some t1) none s g0 g1 g2 = λ h. cc

  -- The recursion ends: where the trees of the roots are in the store with all their directories,
  -- and are at most `depth` deep, `depth` levels are enough, whatever the merge meets on the way.
  pub seaf_merge_trees_terminates :
      (depth : ℕ) (roots : Three CString) (s : MergeState E)
      → All3 (Shallow s.objects E.version depth) roots
      → (seaf_merge_trees E depth roots s).0 ≢ out_of_fuel
  unfolding seaf_merge_trees
  seaf_merge_trees_terminates zero roots s h = absurd h.0
  seaf_merge_trees_terminates (suc depth) roots s (h0, h1, h2) =
      if_rule {A = Rc × MergeState E} (λ x. x.0 ≢ out_of_fuel) (E.n == 2 || E.n == 3) _ (failure, s)
        (merge_roots-ends depth _ _ _ s
          (Shallow-GoodTree E.version s.objects depth roots.s0 _ h0 refl)
          (Shallow-GoodTree E.version s.objects depth roots.s1 _ h1 refl) third)
        (λ bad. cc)
    where
      third :
          (t : Option SeafDir)
          → third_root E roots.s2 s ≡ some t
          → GoodTree E.version s.objects depth t
      third none e = tt
      third (some t) e =
          Shallow-GoodTree E.version s.objects depth roots.s2 (some t) h2 (ground arith)
