-- ===== src/Walk/Rounds.antt =====
-- The walk ends within as many rounds as there are entries.
use seafile_server.Base.{
  suc, ◌≤◌, ◌≡◌, ◌⊎◌, inl, inr, Option, none, some, List, [], ◌∷◌, CString, arith, length,
  str_eq_iff,
}
use seafile_server.Fs.{Dirent}
use seafile_server.Walk.{Ptrs, larger_name, first_name, rest_at, rests_at, rounds}

-- A round takes an entry off a list that has the largest name first.
larger-rest_at :
    (f : Option CString) (m : CString) (l : List Dirent)
    → larger_name f l ≡ some m
    → (f ≡ some m) ⊎ (suc (length (rest_at m l)) ≤ length l)
unfolding larger_name rest_at
larger-rest_at f m [] h = inl h
larger-rest_at none m (d ∷ ds) h = ground (arith, str_eq_iff m d.name)
larger-rest_at (some x) m (d ∷ ds) h = ground (arith, str_eq_iff m d.name)

length-rest_at : (m : CString) (l : List Dirent) → length (rest_at m l) ≤ length l
unfolding rest_at
length-rest_at m [] = omega arith
length-rest_at m (d ∷ ds) = ground arith

pub rounds-rests_at :
    (m : CString) (p : Ptrs) → first_name p ≡ some m → suc (rounds (rests_at m p)) ≤ rounds p
unfolding first_name
rounds-rests_at m p h =
    let l0 = length-rest_at m p.s0 in
    let l1 = length-rest_at m p.s1 in
    let l2 = length-rest_at m p.s2 in
    elim (larger-rest_at (larger_name (larger_name none p.s0) p.s1) m p.s2 h) [
      | inr k2 ↦ omega arith
      | inl h1 ↦ elim (larger-rest_at (larger_name none p.s0) m p.s1 h1) [
        | inr k1 ↦ omega arith
        | inl h0 ↦ elim (larger-rest_at none m p.s0 h0) [ inr k0 ↦ omega arith | inl e ↦ cc ]
      ]
    ]
