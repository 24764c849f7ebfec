-- ===== src/Merge/Unchanged.antt =====
-- `seaf_merge_trees` of common/merge-new.c where one side is the base, or both sides are the same.
use seafile_server.Base.{
  ℕ, suc, ◌+◌, ◌≡◌, refl, ◌⊎◌, ◌∙◌, Option, some, List, [], ◌∷◌, CString, arith, length, All,
  reverse, false, inl, str_eq_refl, str_eq_iff,
}
use seafile_server.Fs.{
  Dirent, SeafDir, IsEntry, get_seafdir, dir_new, sort_dirents, is_dir, dir_save, is_reg-is_dir,
}
use seafile_server.Fs.Sorted.{Desc, Below, sort-reverse}
use seafile_server.Walk.{Three, three, entries_of}
use seafile_server.Walk.Names.{Rounds, done, first, second, both, Rounds-of}
use seafile_server.Merge.{MergeEnv, MergeState, success}
use seafile_server.Merge.Trees.{
  merge_loop, finish_tree, merge_trees_recursive, seaf_merge_trees, dir_version_from_repo_version,
}
use seafile_server.Merge.Names.{Merging, keep_head}
use seafile_server.Merge.OneSided.{merge_loop-head, merge_loop-agree, merge_loop-remote, forward}

-- The same names in the same order, with the same content and kind.
abbrev pub SameFiles : List Dirent → List Dirent → Type 0
SameFiles [] [] = Unit
SameFiles [] (e ∷ es) = ⊥
SameFiles (d ∷ ds) [] = ⊥
SameFiles (d ∷ ds) (e ∷ es) =
    ((d.name ≡ e.name) × (d.id ≡ e.id) × (is_dir d.mode ≡ is_dir e.mode)) × SameFiles ds es

SameFiles-refl : (l : List Dirent) → SameFiles l l
SameFiles-refl [] = tt
SameFiles-refl (d ∷ ds) = ((refl, refl, refl), SameFiles-refl ds)

forward-SameFiles : {h r : List Dirent} (w : Rounds h r) → SameFiles (forward w) r
unfolding forward keep_head
forward-SameFiles done = tt
forward-SameFiles (first d u w) = forward-SameFiles w
forward-SameFiles (second e u w) = ((refl, refl, refl), forward-SameFiles w)
forward-SameFiles (both d e q w) = (
  ground (arith, str_eq_iff d.id e.id, is_reg-is_dir d.mode, is_reg-is_dir e.mode),
  forward-SameFiles w,
)

SameFiles-Below : (m : CString) (ds es : List Dirent) → SameFiles ds es → Below m es → Below m ds
SameFiles-Below m [] [] k h = tt
SameFiles-Below m [] (e ∷ es) k h = tt
SameFiles-Below m (d ∷ ds) [] k h = absurd k
SameFiles-Below m (d ∷ ds) (e ∷ es) (k, ks) (h, hs) = (rw k.0 h, SameFiles-Below m ds es ks hs)

SameFiles-Desc : (ds es : List Dirent) → SameFiles ds es → Desc es → Desc ds
SameFiles-Desc [] [] k h = tt
SameFiles-Desc [] (e ∷ es) k h = tt
SameFiles-Desc (d ∷ ds) [] k h = absurd k
SameFiles-Desc (d ∷ ds) (e ∷ es) (k, ks) (h, hs) =
    (rw k.0 (SameFiles-Below e.name ds es ks h), SameFiles-Desc ds es ks hs)

module _ (E : MergeEnv) where
  -- The directory object for a list of entries.
  abbrev pub object_of : List Dirent → SeafDir
  object_of l = dir_new E.checksum l (dir_version_from_repo_version E.version)

  -- A stored directory: files and directories in descending order of name, under the id that the
  -- entries have.
  pub record IsTree (t : SeafDir) : Type 0 where
    pub kinds : All IsEntry t.entries
    pub in_order : Desc t.entries
    pub own_id : t.dir_id ≡ (object_of t.entries).dir_id

  module _ (mg : Merging E) (depth : ℕ) (s : MergeState E) where
    -- The loop's result is the result of the level but for the last step.
    merge_trees-loop :
        (trees : Three (Option SeafDir)) (basedir : CString) (out : List Dirent)
        → merge_loop E
            (merge_trees_recursive E depth)
            (length (entries_of trees.s0)
              + length (entries_of trees.s1)
              + length (entries_of trees.s2))
            basedir
            (three (entries_of trees.s0) (entries_of trees.s1) (entries_of trees.s2))
            []
            s
          ≡ (success, out, s)
        → merge_trees_recursive E (suc depth) trees basedir s ≡ finish_tree E trees out s
    unfolding merge_trees_recursive
    merge_trees-loop trees basedir out e = rw e (ground arith)

    finish-side :
        (trees : Three (Option SeafDir)) (h : SeafDir)
        → IsTree h
        → ((trees.s1 ≡ some h) ⊎ (trees.s2 ≡ some h))
        → finish_tree E trees (reverse h.entries) s
          ≡ (success, record s { merged_tree_root = h.dir_id })
    unfolding finish_tree
    finish-side trees h k side =
        rw (sort-reverse h.entries k.in_order, ← k.own_id) (ground (arith, str_eq_refl h.dir_id))

    seaf_merge_trees-roots :
        (r0 r1 r2 : CString) {t0 t1 t2 : SeafDir}
        → get_seafdir s.objects E.version r0 ≡ some t0
        → get_seafdir s.objects E.version r1 ≡ some t1
        → get_seafdir s.objects E.version r2 ≡ some t2
        → seaf_merge_trees E (suc depth) (three r0 r1 r2) s
          ≡ merge_trees_recursive E (suc depth) (three (some t0) (some t1) (some t2)) [] s
    unfolding seaf_merge_trees
    seaf_merge_trees-roots r0 r1 r2 e0 e1 e2 = ground arith

    -- In a merging three-way merge where the remote is the base, the merge returns the head: it
    -- succeeds with the head's root, stores nothing, loads no sub-directory and notes no conflict.
    -- The base and the head are well-formed trees of the store.
    pub merge-remote_unchanged :
        (base head : CString) {b h : SeafDir}
        → get_seafdir s.objects E.version base ≡ some b
        → get_seafdir s.objects E.version head ≡ some h
        → IsTree b
        → IsTree h
        → seaf_merge_trees E (suc depth) (three base head base) s
          ≡ (success, record s { merged_tree_root = h.dir_id })
    merge-remote_unchanged base head {b} {h} eb eh kb kh =
        seaf_merge_trees-roots base head base eb eh eb
        ∙ merge_trees-loop (three (some b) (some h) (some b)) [] (reverse h.entries) (
            merge_loop-head E (merge_trees_recursive E depth) [] mg s
              (Rounds-of b.entries h.entries) _ [] (omega arith) kb.kinds kh.kinds)
        ∙ finish-side (three (some b) (some h) (some b)) h kh (inl refl)

    -- In a merging three-way merge where head and remote are the same tree, the merge returns it,
    -- whatever the base: it succeeds with that root, stores nothing, loads no sub-directory and
    -- notes no conflict. The base and the tree are well-formed trees of the store.
    pub merge-same_sides :
        (base head : CString) {b h : SeafDir}
        → get_seafdir s.objects E.version base ≡ some b
        → get_seafdir s.objects E.version head ≡ some h
        → IsTree b
        → IsTree h
        → seaf_merge_trees E (suc depth) (three base head head) s
          ≡ (success, record s { merged_tree_root = h.dir_id })
    merge-same_sides base head {b} {h} eb eh kb kh =
        seaf_merge_trees-roots base head head eb eh eh
        ∙ merge_trees-loop (three (some b) (some h) (some h)) [] (reverse h.entries) (
            merge_loop-agree E (merge_trees_recursive E depth) [] mg s
              (Rounds-of b.entries h.entries) _ [] (omega arith) kb.kinds kh.kinds)
        ∙ finish-side (three (some b) (some h) (some h)) h kh (inl refl)

    finish-fields :
        (trees : Three (Option SeafDir)) (out : List Dirent)
        → let t = (finish_tree E trees out s).1 in
          (t.merged_tree_root ≡ (object_of (sort_dirents out)).dir_id)
          × (t.conflict ≡ s.conflict)
          × (t.visit_dirs ≡ s.visit_dirs)
    unfolding finish_tree dir_save
    finish-fields trees out = ground arith

    finish-success :
        (trees : Three (Option SeafDir)) (out : List Dirent)
        → ((finish_tree E trees out s).0 ≡ success)
          ⊎ (E.write_ok (object_of (sort_dirents out)).dir_id ≡ false)
    unfolding finish_tree dir_save
    finish-success trees out = ground arith

    -- In a merging three-way merge where the head is the base, the merge returns the remote: the
    -- new root is that of a directory with the remote's names, each with the remote's content and kind; no conflict is
    -- noted and no sub-directory is loaded, and the merge succeeds or the store refuses the root.
    -- The head and the remote are well-formed trees of the store.
    pub merge-head_unchanged :
        (head remote : CString) {h r : SeafDir}
        → get_seafdir s.objects E.version head ≡ some h
        → get_seafdir s.objects E.version remote ≡ some r
        → IsTree h
        → IsTree r
        → let (rc, t) = seaf_merge_trees E (suc depth) (three head head remote) s in
          (l : List Dirent) × SameFiles l r.entries
          × (t.merged_tree_root ≡ (object_of l).dir_id)
          × (t.conflict ≡ s.conflict)
          × (t.visit_dirs ≡ s.visit_dirs)
          × ((rc ≡ success) ⊎ (E.write_ok (object_of l).dir_id ≡ false))
    merge-head_unchanged head remote {h} {r} eh er kh kr =
        let w = Rounds-of h.entries r.entries in
        let same = forward-SameFiles w in
        let trees : Three (Option SeafDir) = three (some h) (some h) (some r) in
        let sorted =
          sort-reverse (forward w) (SameFiles-Desc (forward w) r.entries same kr.in_order) in
        let fields = finish-fields trees (reverse (forward w)) in
        rw
          (
            seaf_merge_trees-roots head head remote eh eh er,
            merge_trees-loop trees [] (reverse (forward w)) (
                merge_loop-remote E (merge_trees_recursive E depth) [] mg s w _ [] (omega arith)
                  kh.kinds kr.kinds),
          )
          (
            forward w,
            same,
            rw sorted at fields.0,
            fields.1,
            fields.2,
            rw sorted at (finish-success trees (reverse (forward w))),
          )
