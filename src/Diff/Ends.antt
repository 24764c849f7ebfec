-- ===== src/Diff/Ends.antt =====
-- The recursion of `diff_trees_recursive` in common/diff-simple.c ends at the depth of the stored
-- trees, whatever the callbacks do.
use mathlib.Core.Path.{subst}
use seafile_server.Base.{
  ℕ, zero, suc, ◌≤◌, ◌≡◌, ◌≢◌, refl, inl, inr, Bool, true, false, ◌||◌, Option, none, some, [],
  CString, arith, All, Option-cases, if_rule, ◌==◌,
}
use seafile_server.Fs.{Dirent, SeafDir}
use seafile_server.Walk.{Three, three, Dents, Ptrs, first_name, dents_at, rests_at, rounds, dirs_at}
use seafile_server.Walk.Rounds.{rounds-rests_at}
use seafile_server.Walk.Depth.{
  Shallow, GoodEntry, GoodTree, GoodDent, GoodDir, All3, dent_at-Good, rest_at-Good, dir_of-Good,
  GoodTree-entries, Shallow-GoodTree,
}
use seafile_server.Diff.{DiffEnv, Rc, success, failure, out_of_fuel}
use seafile_server.Diff.Trees.{
  any_present, unchanged, diff_files, load_dir, all_loaded, load_dirs, descend, after_dir_cb,
  diff_directories, proceed, diff_name, diff_loop, diff_trees_recursive, diff_roots, third_root,
  diff_trees,
}

module _ (D : DiffEnv) where
  abbrev Tree : ℕ → Option SeafDir → Type 0
  Tree depth = GoodTree D.version D.objects depth

  abbrev Dir : ℕ → Option Dirent → Type 0
  Dir depth = GoodDir D.version D.objects depth

  abbrev Dent : ℕ → Option Dirent → Type 0
  Dent depth = GoodDent D.version D.objects depth

  load_dir-Tree :
      (depth : ℕ) (d : Option Dirent) (t : Option SeafDir)
      → Dir (suc depth) d
      → load_dir D d ≡ some t
      → Tree depth t
  load_dir-Tree depth d none h e = tt
  load_dir-Tree depth none (some t) h e = cc
  load_dir-Tree depth (some d) (some t) h e =
      Shallow-GoodTree D.version D.objects depth d.id (some t) h (ground arith)

  all_loaded-Tree :
      (depth : ℕ) (x0 x1 x2 : Option (Option SeafDir))
      → ((t : Option SeafDir) → x0 ≡ some t → Tree depth t)
      → ((t : Option SeafDir) → x1 ≡ some t → Tree depth t)
      → ((t : Option SeafDir) → x2 ≡ some t → Tree depth t)
      → (subs : Three (Option SeafDir)) → all_loaded D x0 x1 x2 ≡ some subs
      → All3 (Tree depth) subs
  all_loaded-Tree depth none x1 x2 h0 h1 h2 subs e = cc
  all_loaded-Tree depth (some t0) none x2 h0 h1 h2 subs e = cc
  all_loaded-Tree depth (some t0) (some t1) none h0 h1 h2 subs e = cc
  all_loaded-Tree depth (some t0) (some t1) (some t2) h0 h1 h2 subs e =
      let same : three t0 t1 t2 ≡ subs = cc in
      subst (All3 (Tree depth)) same (h0 t0 refl, h1 t1 refl, h2 t2 refl)

  load_dirs-Tree :
      (depth : ℕ) (dirs : Dents) (subs : Three (Option SeafDir))
      → All3 (Dir (suc depth)) dirs
      → load_dirs D dirs ≡ some subs
      → All3 (Tree depth) subs
  unfolding load_dirs
  load_dirs-Tree depth dirs subs (h0, h1, h2) =
      all_loaded-Tree depth _ _ _ (λ t. load_dir-Tree depth dirs.s0 t h0)
        (λ t. load_dir-Tree depth dirs.s1 t h1) (λ t. load_dir-Tree depth dirs.s2 t h2) subs

  -- What the diff of sub-trees promises one level up.
  abbrev Ends :
      ℕ → (Three (Option SeafDir) → CString → D.CallbackData → Rc × D.CallbackData) → Type 0
  Ends zero recurse = Unit
  Ends (suc depth) recurse =
      (subs : Three (Option SeafDir)) (basedir : CString) (d : D.CallbackData)
      → All3 (Tree depth) subs
      → (recurse subs basedir d).0 ≢ out_of_fuel

  module _ (recurse : Three (Option SeafDir) → CString → D.CallbackData → Rc × D.CallbackData) where
    descend-ends :
        (o : Option (Three (Option SeafDir))) (basedir : CString) (d : D.CallbackData)
        → ((subs : Three (Option SeafDir))
            → o ≡ some subs
            → (recurse subs basedir d).0 ≢ out_of_fuel)
        → (descend D recurse o basedir d).0 ≢ out_of_fuel
    descend-ends none basedir d h = λ e. cc
    descend-ends (some subs) basedir d h = h subs refl

    after_dir_cb-Ends :
        (depth : ℕ) (basedir : CString) (dirs : Dents) (x : Bool × Bool × D.CallbackData)
        → Ends (suc depth) recurse
        → All3 (Dir (suc depth)) dirs
        → (after_dir_cb D recurse basedir dirs x).0 ≢ out_of_fuel
    after_dir_cb-Ends depth basedir dirs (false, deeper, d) ends h = λ e. cc
    after_dir_cb-Ends depth basedir dirs (true, false, d) ends h = λ e. cc
    after_dir_cb-Ends depth basedir dirs (true, true, d) ends h =
        descend-ends (load_dirs D dirs) _ d
          (λ subs e. ends subs _ d (load_dirs-Tree depth dirs subs h e))

    directories-Ends :
        (depth : ℕ) (basedir : CString) (dents : Dents) (d : D.CallbackData)
        → Ends depth recurse
        → All3 (Dent depth) dents
        → (diff_directories D recurse basedir dents d).0 ≢ out_of_fuel
    unfolding diff_directories
    directories-Ends zero basedir dents d ends h =
        let none_there : any_present (dirs_at dents) ≡ false = ground arith in
        rw none_there (λ (e : success ≡ out_of_fuel). cc)
    directories-Ends (suc depth) basedir dents d ends (h0, h1, h2) =
        if_rule (λ x. x.0 ≢ out_of_fuel) (any_present (dirs_at dents))
          (after_dir_cb D recurse basedir (dirs_at dents) (D.dir_cb basedir (dirs_at dents) d))
          (success, d)
          (after_dir_cb-Ends depth basedir (dirs_at dents) _ ends (
            dir_of-Good D.version D.objects (suc depth) dents.s0 h0,
            dir_of-Good D.version D.objects (suc depth) dents.s1 h1,
            dir_of-Good D.version D.objects (suc depth) dents.s2 h2,
          ))
          (λ e. cc)

    proceed-ends :
        (next : D.CallbackData → Rc × D.CallbackData) (x : Rc × D.CallbackData)
        → x.0 ≢ out_of_fuel
        → ((d : D.CallbackData) → (next d).0 ≢ out_of_fuel)
        → (proceed D recurse next x).0 ≢ out_of_fuel
    proceed-ends next (success, d) ok h = h d
    proceed-ends next (failure, d) ok h = ok
    proceed-ends next (out_of_fuel, d) ok h = ok

    files-ends :
        (basedir : CString) (dents : Dents) (d : D.CallbackData)
        → (diff_files D basedir dents d).0 ≢ out_of_fuel
    unfolding diff_files
    files-ends basedir dents d = ground arith

    name-Ends :
        (depth : ℕ) (basedir : CString) (dents : Dents) (d : D.CallbackData)
        → Ends depth recurse
        → All3 (Dent depth) dents
        → (diff_name D recurse basedir dents d).0 ≢ out_of_fuel
    unfolding diff_name
    name-Ends depth basedir dents d ends h =
        if_rule {A = Rc × D.CallbackData} (λ x. x.0 ≢ out_of_fuel) (unchanged D.n dents)
          (success, d) _ (λ e. cc)
          (proceed-ends (diff_directories D recurse basedir dents) (diff_files D basedir dents d)
            (files-ends basedir dents d) (λ d'. directories-Ends depth basedir dents d' ends h))

    loop-Ends :
        (depth left : ℕ) (basedir : CString) (p : Ptrs) (d : D.CallbackData)
        → Ends depth recurse
        → All3 (All (GoodEntry D.version D.objects depth)) p
        → rounds p ≤ left
        → (diff_loop D recurse left basedir p d).0 ≢ out_of_fuel
    unfolding diff_loop
    loop-Ends depth zero basedir p d ends h le = elim (Option-cases (first_name p)) [
      | inl e ↦ rw (e, diff_loop) (λ (bad : success ≡ out_of_fuel). cc)
      | inr (m, e) ↦ absurd (omega (arith, rounds-rests_at m p e))
    ]
    loop-Ends depth (suc left) basedir p d ends (h0, h1, h2) le =
        elim (Option-cases (first_name p)) [
          | inl e ↦ rw (e, diff_loop) (λ (bad : success ≡ out_of_fuel). cc)
          | inr (m, e) ↦
              rw (e, diff_loop)
                (proceed-ends (diff_loop D recurse left basedir (rests_at m p)) _
                  (name-Ends depth basedir (dents_at m p) d ends (
                    dent_at-Good D.version D.objects depth m p.s0 h0,
                    dent_at-Good D.version D.objects depth m p.s1 h1,
                    dent_at-Good D.version D.objects depth m p.s2 h2,
                  ))
                  (λ d'.
                    loop-Ends depth left basedir (rests_at m p) d' ends
                      (
                        rest_at-Good D.version D.objects depth m p.s0 h0,
                        rest_at-Good D.version D.objects depth m p.s1 h1,
                        rest_at-Good D.version D.objects depth m p.s2 h2,
                      )
                      (omega (arith, rounds-rests_at m p e))))
        ]

  level-Ends :
      (depth : ℕ) (trees : Three (Option SeafDir)) (basedir : CString) (d : D.CallbackData)
      → Ends depth (diff_trees_recursive D depth)
      → All3 (Tree depth) trees
      → (diff_trees_recursive D (suc depth) trees basedir d).0 ≢ out_of_fuel
  unfolding diff_trees_recursive
  level-Ends depth trees basedir d ends (h0, h1, h2) =
      loop-Ends (diff_trees_recursive D depth) depth _ basedir _ d ends
        (
          GoodTree-entries D.version D.objects depth trees.s0 h0,
          GoodTree-entries D.version D.objects depth trees.s1 h1,
          GoodTree-entries D.version D.objects depth trees.s2 h2,
        )
        (omega arith)

  recursive-ends :
      (depth : ℕ) (trees : Three (Option SeafDir)) (basedir : CString) (d : D.CallbackData)
      → All3 (Tree depth) trees
      → (diff_trees_recursive D (suc depth) trees basedir d).0 ≢ out_of_fuel
  recursive-ends zero trees basedir d h = level-Ends zero trees basedir d tt h
  recursive-ends (suc depth) trees basedir d h =
      level-Ends (suc depth) trees basedir d (λ subs b t g. recursive-ends depth subs b t g) h

  diff_roots-ends :
      (depth : ℕ) (t0 t1 : Option SeafDir) (t2 : Option (Option SeafDir)) (d : D.CallbackData)
      → Tree depth t0
      → Tree depth t1
      → ((t : Option SeafDir) → t2 ≡ some t → Tree depth t)
      → (diff_roots D (suc depth) t0 t1 t2 d).0 ≢ out_of_fuel
  diff_roots-ends depth (some t0) (some t1) (some t2) d g0 g1 g2 =
      recursive-ends depth (three (some t0) (some t1) t2) [] d (g0, g1, g2 t2 refl)
  diff_roots-ends depth none t1 t2 d g0 g1 g2 = λ h. cc
  diff_roots-ends depth (some t0) none t2 d g0 g1 g2 = λ h. cc
  diff_roots-ends depth (some t0) (some t1) none d g0 g1 g2 = λ h. cc

  -- The recursion ends: where the trees of the roots are in the store with all their directories,
  -- and are at most `depth` deep, `depth` levels are enough, whatever the callbacks return.
  pub diff_trees_terminates :
      (depth : ℕ) (roots : Three CString) (d : D.CallbackData)
      → All3 (Shallow D.objects D.version depth) roots
      → (diff_trees D depth roots d).0 ≢ out_of_fuel
  unfolding diff_trees
  diff_trees_terminates zero roots d h = absurd h.0
  diff_trees_terminates (suc depth) roots d (h0, h1, h2) =
      if_rule {A = Rc × D.CallbackData} (λ x. x.0 ≢ out_of_fuel) (D.n == 2 || D.n == 3) _
        (failure, d)
        (diff_roots-ends depth _ _ _ d
          (Shallow-GoodTree D.version D.objects depth roots.s0 _ h0 refl)
          (Shallow-GoodTree D.version D.objects depth roots.s1 _ h1 refl) third)
        (λ bad. cc)
    where
      third : (t : Option SeafDir) → third_root D roots.s2 ≡ some t → Tree depth t
      third none e = tt
      third (some t) e =
          Shallow-GoodTree D.version D.objects depth roots.s2 (some t) h2 (ground arith)
