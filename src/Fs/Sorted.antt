-- ===== src/Fs/Sorted.antt =====
-- Directories keep their entries in descending order of name, and the sort of merge-new.c restores
-- that order.
use mathlib.Core.List.{reverse_aux, reverse-cons}
use seafile_server.Base.{
  ◌≡◌, refl, inl, inr, true, List, [], ◌∷◌, ◌++◌, reverse, CString, str_lt, str_lt_trans, All,
  Bool-cases,
}
use seafile_server.Fs.{Dirent, insert_dirent, sort_dirents}

abbrev pub Below : CString → List Dirent → Type 0
Below m = All (λ d. str_lt d.name m ≡ true)

-- Names fall strictly.
abbrev pub Desc : List Dirent → Type 0
Desc [] = Unit
Desc (d ∷ ds) = Below d.name ds × Desc ds

pub Below-trans : (a b : CString) (ds : List Dirent) → str_lt a b ≡ true → Below a ds → Below b ds
Below-trans a b [] lt h = tt
Below-trans a b (d ∷ ds) lt (h, hs) = (str_lt_trans d.name a b h lt, Below-trans a b ds lt hs)

insert-append :
    (x d : Dirent) (ds : List Dirent)
    → str_lt x.name d.name ≡ true
    → insert_dirent x (d ∷ ds) ≡ d ∷ insert_dirent x ds
unfolding insert_dirent
insert-append x d ds h = rw h

sort-concat :
    (l : List Dirent) (d : Dirent)
    → Below d.name l
    → sort_dirents (l ++ d ∷ []) ≡ d ∷ sort_dirents l
unfolding sort_dirents
sort-concat [] d h = refl
sort-concat (x ∷ l) d (h, hs) = rw (sort-concat l d hs) (insert-append x d (sort_dirents l) h)

All-reverse_aux {ℓ κ} :
    {A : Type ℓ} (P : A → Type κ) (xs ys : List A) → All P xs → All P ys → All P (reverse_aux xs ys)
All-reverse_aux P [] ys h k = k
All-reverse_aux P (x ∷ xs) ys (h, hs) k = All-reverse_aux P xs (x ∷ ys) hs (h, k)

-- What was consed on entry by entry, in descending order, sorts back to that order.
pub sort-reverse : (ds : List Dirent) → Desc ds → sort_dirents (reverse ds) ≡ ds
unfolding sort_dirents
sort-reverse [] h = refl
sort-reverse (d ∷ ds) (h, hs) =
    rw (reverse-cons, sort-concat (reverse ds) d (All-reverse_aux _ ds [] h tt), sort-reverse ds hs)

pub insert-All :
    (P : Dirent → Type 0) (d : Dirent) (ds : List Dirent)
    → P d
    → All P ds
    → All P (insert_dirent d ds)
unfolding insert_dirent
insert-All P d [] h k = (h, tt)
insert-All P d (e ∷ es) h (k, ks) = elim (Bool-cases (str_lt d.name e.name)) [
  | inl lt ↦ rw lt (k, insert-All P d es h ks)
  | inr ge ↦ rw ge (h, (k, ks))
]
