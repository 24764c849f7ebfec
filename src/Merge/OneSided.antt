-- ===== src/Merge/OneSided.antt =====
-- The loop of `merge_trees_recursive` where at most one side has changed the directory.
use mathlib.Core.List.{reverse_aux}
use seafile_server.Base.{
  ℕ, zero, suc, ◌+◌, ◌≤◌, ◌≡◌, refl, ◌∙◌, Option, List, [], ◌∷◌, CString, arith, length, All, ◌||◌,
  true,
}
use seafile_server.Fs.{Dirent, SeafDir, IsEntry}
use seafile_server.Walk.{Three, three, first_name}
use seafile_server.Walk.Names.{
  Front, hit, miss, found, dent_at-Front, rest_at-Front, first_name-Front, Rounds, done, first,
  second, both,
}
use seafile_server.Merge.{MergeEnv, MergeState, Rc, success}
use seafile_server.Merge.Trees.{merge_name, merge_loop}
use seafile_server.Merge.Names.{
  Merging, head_added, base_kept, head_deleted, both_deleted, both_added, both_agree, remote_added,
  remote_deleted, head_kept, keep_head,
}

-- The remote's entries, each replaced by the head's of the same name if that has the same content.
unfoldable pub forward : {h r : List Dirent} → Rounds h r → List Dirent
forward done = []
forward (first d u w) = forward w
forward (second e u w) = e ∷ forward w
forward (both d e q w) = keep_head d e ∷ forward w

module _ (E : MergeEnv)
    (recurse : Three (Option SeafDir) → CString → MergeState E → Rc × MergeState E)
    (basedir : CString) where
  -- A round that succeeds.
  merge_loop-round :
      {l0 l1 l2 r0 r1 r2 : List Dirent} {t0 t1 t2 : Option Dirent} (left : ℕ) (m : CString)
      (out out' : List Dirent) (s s' : MergeState E)
      → Front m l0 t0 r0
      → Front m l1 t1 r1
      → Front m l2 t2 r2
      → ((found m t0 || found m t1) || found m t2) ≡ true
      → merge_name E recurse basedir (three t0 t1 t2) out s ≡ (success, out', s')
      → merge_loop E recurse (suc left) basedir (three l0 l1 l2) out s
        ≡ merge_loop E recurse left basedir (three r0 r1 r2) out' s'
  unfolding merge_loop
  merge_loop-round left m out out' s s' k0 k1 k2 h step =
      rw (first_name-Front m k0 k1 k2 h, merge_loop)
        (rw
          (
            dent_at-Front m k0,
            dent_at-Front m k1,
            dent_at-Front m k2,
            rest_at-Front m k0,
            rest_at-Front m k1,
            rest_at-Front m k2,
          )
          (rw step))

  module _ (mg : Merging E) (s : MergeState E) where
    -- The remote is the base: what goes out is the head.
    pub merge_loop-head :
        {b h : List Dirent}
        → Rounds b h
        → (left : ℕ) (out : List Dirent) → length b + length h + length b ≤ left
        → All IsEntry b
        → All IsEntry h
        → merge_loop E recurse left basedir (three b h b) out s ≡ (success, reverse_aux h out, s)
    unfolding merge_loop first_name
    merge_loop-head done zero out le kb kh = refl
    merge_loop-head done (suc left) out le kb kh = refl
    merge_loop-head (first d u r) zero out le kb kh = absurd (omega arith)
    merge_loop-head (first d u r) (suc left) out le kb kh =
        merge_loop-round left d.name out out s s (hit refl) (miss u) (hit refl) refl
          (head_deleted E mg recurse basedir out s d kb.0)
        ∙ merge_loop-head r left out (omega arith) kb.1 kh
    merge_loop-head (second e u r) zero out le kb kh = absurd (omega arith)
    merge_loop-head (second e u r) (suc left) out le kb kh =
        merge_loop-round left e.name out (e ∷ out) s s (miss u) (hit refl) (miss u) refl
          (head_added E mg recurse basedir out s e kh.0)
        ∙ merge_loop-head r left (e ∷ out) (omega arith) kb kh.1
    merge_loop-head (both d e q r) zero out le kb kh = absurd (omega arith)
    merge_loop-head (both d e q r) (suc left) out le kb kh =
        merge_loop-round left e.name out (e ∷ out) s s (hit q) (hit refl) (hit q) refl
          (base_kept E mg recurse basedir out s d e kb.0 kh.0)
        ∙ merge_loop-head r left (e ∷ out) (omega arith) kb.1 kh.1

    -- Head and remote are the same: that goes out.
    pub merge_loop-agree :
        {b h : List Dirent}
        → Rounds b h
        → (left : ℕ) (out : List Dirent) → length b + length h + length h ≤ left
        → All IsEntry b
        → All IsEntry h
        → merge_loop E recurse left basedir (three b h h) out s ≡ (success, reverse_aux h out, s)
    unfolding merge_loop first_name
    merge_loop-agree done zero out le kb kh = refl
    merge_loop-agree done (suc left) out le kb kh = refl
    merge_loop-agree (first d u r) zero out le kb kh = absurd (omega arith)
    merge_loop-agree (first d u r) (suc left) out le kb kh =
        merge_loop-round left d.name out out s s (hit refl) (miss u) (miss u) refl
          (both_deleted E mg recurse basedir out s d kb.0)
        ∙ merge_loop-agree r left out (omega arith) kb.1 kh
    merge_loop-agree (second e u r) zero out le kb kh = absurd (omega arith)
    merge_loop-agree (second e u r) (suc left) out le kb kh =
        merge_loop-round left e.name out (e ∷ out) s s (miss u) (hit refl) (hit refl) refl
          (both_added E mg recurse basedir out s e kh.0)
        ∙ merge_loop-agree r left (e ∷ out) (omega arith) kb kh.1
    merge_loop-agree (both d e q r) zero out le kb kh = absurd (omega arith)
    merge_loop-agree (both d e q r) (suc left) out le kb kh =
        merge_loop-round left e.name out (e ∷ out) s s (hit q) (hit refl) (hit refl) refl
          (both_agree E mg recurse basedir out s d e kb.0 kh.0)
        ∙ merge_loop-agree r left (e ∷ out) (omega arith) kb.1 kh.1

    -- The head is the base: what goes out is the remote, with the head's own entries where the
    -- content is the same.
    pub merge_loop-remote :
        {h r : List Dirent} (w : Rounds h r) (left : ℕ) (out : List Dirent)
        → length h + length h + length r ≤ left
        → All IsEntry h
        → All IsEntry r
        → merge_loop E recurse left basedir (three h h r) out s
          ≡ (success, reverse_aux (forward w) out, s)
    unfolding merge_loop first_name forward
    merge_loop-remote done zero out le kh kr = refl
    merge_loop-remote done (suc left) out le kh kr = refl
    merge_loop-remote (first d u w) zero out le kh kr = absurd (omega arith)
    merge_loop-remote (first d u w) (suc left) out le kh kr =
        merge_loop-round left d.name out out s s (hit refl) (hit refl) (miss u) refl
          (remote_deleted E mg recurse basedir out s d kh.0)
        ∙ merge_loop-remote w left out (omega arith) kh.1 kr
    merge_loop-remote (second e u w) zero out le kh kr = absurd (omega arith)
    merge_loop-remote (second e u w) (suc left) out le kh kr =
        merge_loop-round left e.name out (e ∷ out) s s (miss u) (miss u) (hit refl) refl
          (remote_added E mg recurse basedir out s e kr.0)
        ∙ merge_loop-remote w left (e ∷ out) (omega arith) kh kr.1
    merge_loop-remote (both d e q w) zero out le kh kr = absurd (omega arith)
    merge_loop-remote (both d e q w) (suc left) out le kh kr =
        merge_loop-round left e.name out (keep_head d e ∷ out) s s (hit q) (hit q) (hit refl) refl
          (head_kept E mg recurse basedir out s d e kh.0 kr.0)
        ∙ merge_loop-remote w left (keep_head d e ∷ out) (omega arith) kh.1 kr.1
