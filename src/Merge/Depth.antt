-- ===== src/Merge/Depth.antt =====
-- The entries that `merge_entries` of common/merge-new.c hands on, and the sub-directories that
-- `merge_directories` loads, are within the depth of the stored trees.
use mathlib.Core.Path.{subst}
use seafile_server.Base.{ℕ, suc, ◌≡◌, refl, ◌∙◌, ◌≢◌, ap, Option, none, some, List, CString, arith}
use seafile_server.Fs.{Dirent, SeafDir, Objects, is_dir}
use seafile_server.Walk.{Three, Dents}
use seafile_server.Merge.{MergeEnv, MergeState, Rc, success, failure, out_of_fuel}
use seafile_server.Merge.Entries.{merge_entries}
use seafile_server.Merge.Dirs.{load_dirs, load_dir, load_first, load_second}
use seafile_server.Walk.Depth.{Shallow, GoodTree, GoodDent, GoodDir, All3}

abbrev pub shape : Option Dirent → Option (ℕ × CString)
shape none = none
shape (some d) = some (d.mode, d.id)

pub GoodDent-shape :
    (version : ℕ) (o : Objects) (depth : ℕ) (d e : Option Dirent)
    → shape e ≡ shape d
    → GoodDent version o depth d
    → GoodDent version o depth e
GoodDent-shape version o depth d none q h = tt
GoodDent-shape version o depth none (some e) q h = cc
GoodDent-shape version o depth (some d) (some e) q h = λ m.
    let same : d.id ≡ e.id = cc in
    let mode : d.mode ≡ e.mode = cc in subst (Shallow o version depth) same (h (ap is_dir mode ∙ m))

module _ (E : MergeEnv) where
  -- Names may have changed, and nothing else.
  pub entries-shape :
      (basedir : CString) (dents : Dents) (out : List Dirent) (s : MergeState E)
      → let r = merge_entries E basedir dents out s in
        (shape r.1.s0 ≡ shape dents.s0)
        × (shape r.1.s1 ≡ shape dents.s1)
        × (shape r.1.s2 ≡ shape dents.s2)
        × (r.0 ≢ out_of_fuel)
        × (r.3.objects ≡ s.objects)
  unfolding merge_entries
  entries-shape basedir dents out s =
      (ground arith, ground arith, ground arith, ground arith, ground arith)

  abbrev LoadGood : Objects → ℕ → Rc × Option SeafDir × MergeState E → Type 0
  LoadGood o depth (rc, t, s) =
      (GoodTree E.version o depth t) × (rc ≢ out_of_fuel) × (s.objects ≡ o)

  load_dir-Good :
      (o : Objects) (depth : ℕ) (d : Option Dirent) (s : MergeState E)
      → s.objects ≡ o
      → GoodDir E.version o (suc depth) d
      → LoadGood o depth (load_dir E d s)
  unfolding load_dir
  load_dir-Good o depth none s q h = (tt, λ (e : success ≡ out_of_fuel). cc, q)
  load_dir-Good o depth (some d) s q (t, e, h) =
      rw (q, e) (h, λ (e : success ≡ out_of_fuel). cc, refl)

  abbrev pub LoadedGood : Objects → ℕ → Rc × Three (Option SeafDir) × MergeState E → Type 0
  LoadedGood o depth (rc, subs, s) =
      (All3 (GoodTree E.version o depth) subs) × (rc ≢ out_of_fuel) × (s.objects ≡ o)

  load_second-Good :
      (o : Objects) (depth : ℕ) (d2 : Option Dirent) (t0 : Option SeafDir)
      (x : Rc × Option SeafDir × MergeState E)
      → GoodDir E.version o (suc depth) d2
      → GoodTree E.version o depth t0
      → LoadGood o depth x
      → LoadedGood o depth (load_second E d2 t0 x)
  load_second-Good o depth d2 t0 (success, t1, s) h k (k1, ok, q) =
      let (k2, fine, q') = load_dir-Good o depth d2 s q h in ((k, k1, k2), fine, q')
  load_second-Good o depth d2 t0 (failure, t1, s) h k (k1, ok, q) = ((k, k1, tt), ok, q)
  load_second-Good o depth d2 t0 (out_of_fuel, t1, s) h k (k1, ok, q) = absurd (ok refl)

  load_first-Good :
      (o : Objects) (depth : ℕ) (d1 d2 : Option Dirent) (x : Rc × Option SeafDir × MergeState E)
      → GoodDir E.version o (suc depth) d1
      → GoodDir E.version o (suc depth) d2
      → LoadGood o depth x
      → LoadedGood o depth (load_first E d1 d2 x)
  load_first-Good o depth d1 d2 (success, t0, s) h1 h2 (k, ok, q) =
      load_second-Good o depth d2 t0 (load_dir E d1 s) h2 k (load_dir-Good o depth d1 s q h1)
  load_first-Good o depth d1 d2 (failure, t0, s) h1 h2 (k, ok, q) = ((k, tt, tt), ok, q)
  load_first-Good o depth d1 d2 (out_of_fuel, t0, s) h1 h2 (k, ok, q) = absurd (ok refl)

  pub load_dirs-Good :
      (depth : ℕ) (dirs : Three (Option Dirent)) (s : MergeState E)
      → All3 (GoodDir E.version s.objects (suc depth)) dirs
      → LoadedGood s.objects depth (load_dirs E dirs s)
  unfolding load_dirs
  load_dirs-Good depth dirs s h =
      load_first-Good s.objects depth dirs.s1 dirs.s2 (load_dir E dirs.s0 s) h.1 h.2
        (load_dir-Good s.objects depth dirs.s0 s refl h.0)
