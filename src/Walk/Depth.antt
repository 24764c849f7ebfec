-- ===== src/Walk/Depth.antt =====
-- A bound on the depth of stored directory trees, which the recursions of common/merge-new.c and
-- common/diff-simple.c go down.
use seafile_server.Base.{
  ℕ, zero, suc, ◌≡◌, true, Option, none, some, List, [], ◌∷◌, CString, arith, All, All-map,
  Option-cases, if_rule, if_split, str_eq, inl, inr,
}
use mathlib.Core.Path.{subst}
use seafile_server.Fs.{Dirent, SeafDir, Objects, get_seafdir, is_dir}
use seafile_server.Walk.{Three, dent_at, rest_at, dir_of, entries_of}

-- The tree of the id can be loaded with all the directories in it, and is at most this deep.
abbrev pub Shallow : Objects → ℕ → ℕ → CString → Type 0
Shallow objects version zero id = ⊥
Shallow objects version (suc depth) id =
    (t : SeafDir) × (get_seafdir objects version id ≡ some t)
    × All (λ d. is_dir d.mode ≡ true → Shallow objects version depth d.id) t.entries

module _ (version : ℕ) where
  -- The directories in a loaded tree, and an entry that may be one.
  abbrev pub GoodEntry : Objects → ℕ → Dirent → Type 0
  GoodEntry o depth d = is_dir d.mode ≡ true → Shallow o version depth d.id

  abbrev pub GoodTree : Objects → ℕ → Option SeafDir → Type 0
  GoodTree o depth none = Unit
  GoodTree o depth (some t) = All (GoodEntry o depth) t.entries

  abbrev pub GoodDent : Objects → ℕ → Option Dirent → Type 0
  GoodDent o depth none = Unit
  GoodDent o depth (some d) = GoodEntry o depth d

  -- A directory entry of the array `dirs`.
  abbrev pub GoodDir : Objects → ℕ → Option Dirent → Type 0
  GoodDir o depth none = Unit
  GoodDir o depth (some d) = Shallow o version depth d.id

  abbrev pub Keeps : Objects → Objects → Type 0
  Keeps o o' = (id : CString) (d : SeafDir) → o id ≡ some d → o' id ≡ some d

  pub get_seafdir-Keeps :
      (o o' : Objects) (id : CString) {t : SeafDir}
      → Keeps o o'
      → get_seafdir o version id ≡ some t
      → get_seafdir o' version id ≡ some t
  unfolding get_seafdir
  get_seafdir-Keeps o o' id k h = elim (Option-cases (o id)) [
    | inl e ↦ ground arith
    | inr (d, e) ↦ ground (arith, k id d e)
  ]

  pub Shallow-Keeps :
      (o o' : Objects) (depth : ℕ) (id : CString)
      → Keeps o o'
      → Shallow o version depth id
      → Shallow o' version depth id
  Shallow-Keeps o o' zero id k h = absurd h
  Shallow-Keeps o o' (suc depth) id k (t, e, h) = (
    t,
    get_seafdir-Keeps o o' id k e,
    All-map _ _ t.entries (λ d g m. Shallow-Keeps o o' depth d.id k (g m)) h,
  )

  pub GoodList-Keeps :
      (o o' : Objects) (depth : ℕ) (l : List Dirent)
      → Keeps o o'
      → All (GoodEntry o depth) l
      → All (GoodEntry o' depth) l
  GoodList-Keeps o o' depth l k = All-map _ _ l (λ d g m. Shallow-Keeps o o' depth d.id k (g m))

  pub dent_at-Good :
      (o : Objects) (depth : ℕ) (m : CString) (l : List Dirent)
      → All (GoodEntry o depth) l
      → GoodDent o depth (dent_at m l)
  unfolding dent_at
  dent_at-Good o depth m [] h = tt
  dent_at-Good o depth m (d ∷ ds) h =
      if_rule (GoodDent o depth) (str_eq m d.name) (some d) none h.0 tt

  pub rest_at-Good :
      (o : Objects) (depth : ℕ) (m : CString) (l : List Dirent)
      → All (GoodEntry o depth) l
      → All (GoodEntry o depth) (rest_at m l)
  unfolding rest_at
  rest_at-Good o depth m [] h = tt
  rest_at-Good o depth m (d ∷ ds) h =
      if_rule (All (GoodEntry o depth)) (str_eq m d.name) ds (d ∷ ds) h.1 h

  pub dir_of-Good :
      (o : Objects) (depth : ℕ) (d : Option Dirent)
      → GoodDent o depth d
      → GoodDir o depth (dir_of d)
  unfolding dir_of
  dir_of-Good o depth none h = tt
  dir_of-Good o depth (some d) h =
      if_split (GoodDir o depth) (is_dir d.mode) (some d) none h (λ _. tt)

  pub GoodTree-entries :
      (o : Objects) (depth : ℕ) (t : Option SeafDir)
      → GoodTree o depth t
      → All (GoodEntry o depth) (entries_of t)
  GoodTree-entries o depth none h = tt
  GoodTree-entries o depth (some t) h = h

  pub Shallow-GoodTree :
      (o : Objects) (depth : ℕ) (id : CString) (t : Option SeafDir)
      → Shallow o version (suc depth) id
      → get_seafdir o version id ≡ t
      → GoodTree o depth t
  Shallow-GoodTree o depth id none h e = tt
  Shallow-GoodTree o depth id (some t) (u, q, h) e =
      let same : u ≡ t = cc in subst (λ (x : SeafDir). All (GoodEntry o depth) x.entries) same h

abbrev pub All3 {ℓ κ} : {A : Type ℓ} → (A → Type κ) → Three A → Type κ
All3 P t = P t.s0 × P t.s1 × P t.s2
