-- ===== src/Merge/Copies.antt =====
-- The names that `gen_conflict_path` of common/vc-common.c makes.
use seafile_server.Base.{
  suc, ◌+◌, ◌<◌, ◌≡◌, refl, false, Option, none, some, [], ◌∷◌, ◌++◌, CString, ◌==◌, arith, length,
  length-append, All, if_rule,
}
use seafile_server.Merge.Conflict.{split_dot, conflict_mark, gen_conflict_path, dot_step, mark_name}

abbrev pub NoDot : CString → Type 0
NoDot = All (λ c. (c == b'.') ≡ false)

split_dot-NoDot : (name : CString) → NoDot name → split_dot name ≡ none
unfolding split_dot
split_dot-NoDot [] h = refl
split_dot-NoDot (c ∷ name) (h, hs) = ground (arith, split_dot-NoDot name hs)

split_dot-append :
    (stem ext : CString) → NoDot ext → split_dot (stem ++ b'.' ∷ ext) ≡ some (stem, ext)
unfolding split_dot
split_dot-append [] ext h = rw (split_dot-NoDot ext h) refl
split_dot-append (c ∷ stem) ext h = rw (split_dot-append stem ext h) refl

-- Of a name with an extension, which has no dot of its own, the mark stands before the dot of the
-- extension; of a name with no dot it stands at the end.
pub gen_conflict_path-extension :
    (stem ext : CString) (modifier : Option CString) (time : CString)
    → NoDot ext
    → (gen_conflict_path (stem ++ b'.' ∷ ext) modifier time
        ≡ stem ++ (conflict_mark modifier time ++ b'.' ∷ ext))
      × (gen_conflict_path ext modifier time ≡ ext ++ conflict_mark modifier time)
unfolding gen_conflict_path
gen_conflict_path-extension stem ext modifier time h =
    (rw (split_dot-append stem ext h) refl, rw (split_dot-NoDot ext h) refl)

-- The two parts that a name is split into are shorter than it by the dot.
abbrev Shorter : CString → Option (CString × CString) → Type 0
Shorter path none = Unit
Shorter path (some (copy, ext)) = length path ≡ suc (length copy + length ext)

split_dot-Shorter : (path : CString) → Shorter path (split_dot path)
unfolding split_dot
split_dot-Shorter [] = tt
split_dot-Shorter (c ∷ path) = dot_step-Shorter (split_dot path) (split_dot-Shorter path)
  where
    dot_step-Shorter :
        (o : Option (CString × CString)) → Shorter path o → Shorter (c ∷ path) (dot_step c path o)
    dot_step-Shorter none h =
        if_rule (Shorter (c ∷ path)) (c == b'.') (some ([], path)) none (omega arith) tt
    dot_step-Shorter (some (copy, ext)) h = omega (arith, h)

conflict_mark_long :
    (modifier : Option CString) (time : CString) → 0 < length (conflict_mark modifier time)
unfolding conflict_mark
conflict_mark_long none time = omega arith
conflict_mark_long (some modifier) time = omega arith

mark_name_longer :
    (path mark : CString) (o : Option (CString × CString))
    → 0 < length mark
    → Shorter path o
    → length path < length (mark_name path mark o)
mark_name_longer path mark none long h = omega (arith, length-append path mark, long)
mark_name_longer path mark (some (copy, ext)) long h =
    omega (arith, length-append copy (mark ++ b'.' ∷ ext), length-append mark (b'.' ∷ ext), long, h)

-- The name of a conflicting copy is longer than that of the original, so it is another name.
pub gen_conflict_path_longer :
    (path : CString) (modifier : Option CString) (time : CString)
    → length path < length (gen_conflict_path path modifier time)
unfolding gen_conflict_path
gen_conflict_path_longer path modifier time =
    mark_name_longer path (conflict_mark modifier time) (split_dot path)
      (conflict_mark_long modifier time) (split_dot-Shorter path)
