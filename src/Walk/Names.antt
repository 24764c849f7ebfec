-- ===== src/Walk/Names.antt =====
-- Which name a round of the walk finds, and what it takes off each list.
use mathlib.Core.Path.{subst}
use seafile_server.Base.{
  ◌≡◌, refl, ap, inl, inr, Bool, true, false, ◌||◌, Option, none, some, List, [], ◌∷◌, CString,
  str_lt, str_eq_iff, str_eq_comm, str_lt_irrefl, str_lt-ne, str_lt_asymm, str_cases, arith,
}
use seafile_server.Fs.{Dirent}
use seafile_server.Walk.{three, larger_name, first_name, dent_at, rest_at}

-- The first name of the list, if it has one, is below `m`.
abbrev pub Under : CString → List Dirent → Type 0
Under m [] = Unit
Under m (d ∷ ds) = str_lt d.name m ≡ true

-- How a list stands to the name `m` of a round: its first entry has the name and is taken, or all
-- of it stays.
pub data Front (m : CString) : List Dirent → Option Dirent → List Dirent → Type 0 where
  hit : {d : Dirent} {ds : List Dirent} → d.name ≡ m → Front m (d ∷ ds) (some d) ds
  miss : {l : List Dirent} → Under m l → Front m l none l

module _ (m : CString) where
  pub dent_at-Front : {l r : List Dirent} {t : Option Dirent} → Front m l t r → dent_at m l ≡ t
  unfolding dent_at
  dent_at-Front (hit {d} e) = ground (arith, str_eq_iff m d.name)
  dent_at-Front (miss {l = []} h) = refl
  dent_at-Front (miss {l = d ∷ ds} h) = ground (arith, str_lt-ne d.name m, str_eq_comm d.name m)

  pub rest_at-Front : {l r : List Dirent} {t : Option Dirent} → Front m l t r → rest_at m l ≡ r
  unfolding rest_at
  rest_at-Front (hit {d} e) = ground (arith, str_eq_iff m d.name)
  rest_at-Front (miss {l = []} h) = refl
  rest_at-Front (miss {l = d ∷ ds} h) = ground (arith, str_lt-ne d.name m, str_eq_comm d.name m)

  abbrev Lower : Option CString → Type 0
  Lower none = Unit
  Lower (some x) = str_lt x m ≡ true

  -- What the search for the largest name has found, before and after a list with the name `m`.
  abbrev Best : Bool → Option CString → Type 0
  Best true f = f ≡ some m
  Best false f = Lower f

  abbrev pub found : Option Dirent → Bool
  found none = false
  found (some d) = true

  larger-hit :
      (f : Option CString) (d : Dirent) (ds : List Dirent)
      → Lower f
      → d.name ≡ m
      → larger_name f (d ∷ ds) ≡ some m
  unfolding larger_name
  larger-hit none d ds h e = ap some e
  larger-hit (some x) d ds h e = ground arith

  larger-Best :
      (b : Bool) (f : Option CString) {l r : List Dirent} {t : Option Dirent}
      → Best b f
      → Front m l t r
      → Best (b || found t) (larger_name f l)
  unfolding larger_name
  larger-Best true f h (hit {d} e) = ground (arith, str_lt_irrefl m)
  larger-Best true f h (miss {l = []} u) = h
  larger-Best true f h (miss {l = d ∷ ds} u) = ground (arith, str_lt_asymm d.name m)
  larger-Best false f h (hit {d} {ds} e) = larger-hit f d ds h e
  larger-Best false f h (miss {l = []} u) = h
  larger-Best false none h (miss {l = d ∷ ds} u) = u
  larger-Best false (some x) h (miss {l = d ∷ ds} u) = ground arith

  -- The round is for the name `m` if one list is hit.
  pub first_name-Front :
      {l0 l1 l2 r0 r1 r2 : List Dirent} {t0 t1 t2 : Option Dirent}
      → Front m l0 t0 r0
      → Front m l1 t1 r1
      → Front m l2 t2 r2
      → ((found t0 || found t1) || found t2) ≡ true
      → first_name (three l0 l1 l2) ≡ some m
  unfolding first_name
  first_name-Front {l0} {l1} {l2} k0 k1 k2 h =
      subst (λ b. Best b (larger_name (larger_name (larger_name none l0) l1) l2)) h
        (larger-Best _ _ (larger-Best _ _ (larger-Best false none tt k0) k1) k2)

-- The walk over two lists, round by round.
pub data Rounds : List Dirent → List Dirent → Type 0 where
  done : Rounds [] []
  first : {ds ys : List Dirent} (d : Dirent) → Under d.name ys → Rounds ds ys → Rounds (d ∷ ds) ys
  second : {xs es : List Dirent} (e : Dirent) → Under e.name xs → Rounds xs es → Rounds xs (e ∷ es)
  both :
      {ds es : List Dirent} (d e : Dirent)
      → d.name ≡ e.name
      → Rounds ds es
      → Rounds (d ∷ ds) (e ∷ es)

pub Rounds-of : (xs ys : List Dirent) → Rounds xs ys
Rounds-of [] [] = done
Rounds-of (d ∷ ds) [] = first d tt (Rounds-of ds [])
Rounds-of [] (e ∷ es) = second e tt (Rounds-of [] es)
Rounds-of (d ∷ ds) (e ∷ es) = elim (str_cases d.name e.name) [
  | inl same ↦ both d e same (Rounds-of ds es)
  | inr (inl lt) ↦ second e lt (Rounds-of (d ∷ ds) es)
  | inr (inr gt) ↦ first d gt (Rounds-of ds (e ∷ es))
]
