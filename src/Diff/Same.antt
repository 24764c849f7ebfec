-- ===== src/Diff/Same.antt =====
-- `diff_trees` of common/diff-simple.c on a tree and itself.
use seafile_server.Base.{
  ℕ, zero, suc, ◌+◌, ◌≤◌, ◌≡◌, refl, ◌∙◌, ◌⊎◌, inl, inr, true, ◌||◌, Option, none, some, List, [],
  ◌∷◌, CString, str_eq_refl, arith, length,
}
use seafile_server.Fs.{Dirent, SeafDir, get_seafdir}
use seafile_server.Walk.{Three, three, first_name}
use seafile_server.Walk.Names.{
  Front, hit, miss, found, dent_at-Front, rest_at-Front, first_name-Front,
}
use seafile_server.Diff.{DiffEnv, Rc, success, dirent_same}
use seafile_server.Diff.Trees.{diff_name, diff_loop, diff_trees_recursive, diff_trees}

dirent_same_refl : (d : Dirent) → dirent_same d d ≡ true
unfolding dirent_same
dirent_same_refl d = ground (arith, str_eq_refl d.id)

module _ (D : DiffEnv)
    (recurse : Three (Option SeafDir) → CString → D.CallbackData → Rc × D.CallbackData)
    (basedir : CString) where
  -- A round that succeeds.
  pub diff_loop-round :
      {l0 l1 l2 r0 r1 r2 : List Dirent} {t0 t1 t2 : Option Dirent} (left : ℕ) (m : CString)
      (d d' : D.CallbackData)
      → Front m l0 t0 r0
      → Front m l1 t1 r1
      → Front m l2 t2 r2
      → (found m t0 || found m t1 || found m t2) ≡ true
      → diff_name D recurse basedir (three t0 t1 t2) d ≡ (success, d')
      → diff_loop D recurse (suc left) basedir (three l0 l1 l2) d
        ≡ diff_loop D recurse left basedir (three r0 r1 r2) d'
  unfolding diff_loop
  diff_loop-round left m d d' k0 k1 k2 h step =
      rw (first_name-Front m k0 k1 k2 h, diff_loop)
        (rw
          (
            dent_at-Front m k0,
            dent_at-Front m k1,
            dent_at-Front m k2,
            rest_at-Front m k0,
            rest_at-Front m k1,
            rest_at-Front m k2,
          )
          (rw step))

  same_name_2 :
      (e : Dirent) (d : D.CallbackData)
      → D.n ≡ 2
      → diff_name D recurse basedir (three (some e) (some e) none) d ≡ (success, d)
  unfolding diff_name
  same_name_2 e d two = ground (arith, dirent_same_refl e)

  same_name_3 :
      (e : Dirent) (d : D.CallbackData)
      → D.n ≡ 3
      → diff_name D recurse basedir (three (some e) (some e) (some e)) d ≡ (success, d)
  unfolding diff_name
  same_name_3 e d two = ground (arith, dirent_same_refl e)

  loop_2 :
      (l : List Dirent) (left : ℕ) (d : D.CallbackData)
      → D.n ≡ 2
      → length l + length l ≤ left
      → diff_loop D recurse left basedir (three l l []) d ≡ (success, d)
  unfolding diff_loop first_name
  loop_2 [] zero d two le = refl
  loop_2 [] (suc left) d two le = refl
  loop_2 (e ∷ l) zero d two le = absurd (omega arith)
  loop_2 (e ∷ l) (suc left) d two le =
      diff_loop-round left e.name d d (hit refl) (hit refl) (miss tt) refl (same_name_2 e d two)
      ∙ loop_2 l left d two (omega arith)

  loop_3 :
      (l : List Dirent) (left : ℕ) (d : D.CallbackData)
      → D.n ≡ 3
      → length l + length l ≤ left
      → diff_loop D recurse left basedir (three l l l) d ≡ (success, d)
  unfolding diff_loop first_name
  loop_3 [] zero d two le = refl
  loop_3 [] (suc left) d two le = refl
  loop_3 (e ∷ l) zero d two le = absurd (omega arith)
  loop_3 (e ∷ l) (suc left) d two le =
      diff_loop-round left e.name d d (hit refl) (hit refl) (hit refl) refl (same_name_3 e d two)
      ∙ loop_3 l left d two (omega arith)

module _ (D : DiffEnv) (depth : ℕ) where
  pub roots_2 :
      (r0 r1 r2 : CString) (d : D.CallbackData) {t0 t1 : SeafDir}
      → D.n ≡ 2
      → get_seafdir D.objects D.version r0 ≡ some t0
      → get_seafdir D.objects D.version r1 ≡ some t1
      → diff_trees D depth (three r0 r1 r2) d
        ≡ diff_trees_recursive D depth (three (some t0) (some t1) none) [] d
  unfolding diff_trees
  roots_2 r0 r1 r2 d two e0 e1 = ground arith

  pub roots_3 :
      (r0 r1 r2 : CString) (d : D.CallbackData) {t0 t1 t2 : SeafDir}
      → D.n ≡ 3
      → get_seafdir D.objects D.version r0 ≡ some t0
      → get_seafdir D.objects D.version r1 ≡ some t1
      → get_seafdir D.objects D.version r2 ≡ some t2
      → diff_trees D depth (three r0 r1 r2) d
        ≡ diff_trees_recursive D depth (three (some t0) (some t1) (some t2)) [] d
  unfolding diff_trees
  roots_3 r0 r1 r2 d two e0 e1 e2 = ground arith

-- A tree that can be loaded, compared with itself, two or three times: the diff succeeds and no
-- callback is called, whatever the callbacks are. One level of depth is enough.
pub diff_trees-same :
    (D : DiffEnv) (depth : ℕ) (root : CString) (d : D.CallbackData) {t : SeafDir}
    → (D.n ≡ 2) ⊎ (D.n ≡ 3)
    → get_seafdir D.objects D.version root ≡ some t
    → diff_trees D (suc depth) (three root root root) d ≡ (success, d)
unfolding diff_trees_recursive
diff_trees-same D depth root d {t} (inl two) e =
    roots_2 D (suc depth) root root root d two e e
    ∙ loop_2 D (diff_trees_recursive D depth) [] t.entries _ d two (omega arith)
diff_trees-same D depth root d {t} (inr three_ways) e =
    roots_3 D (suc depth) root root root d three_ways e e e
    ∙ loop_3 D (diff_trees_recursive D depth) [] t.entries _ d three_ways (omega arith)
