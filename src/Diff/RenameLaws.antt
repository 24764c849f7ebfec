-- ===== src/Diff/RenameLaws.antt =====
-- What `diff_resolve_renames` of common/diff-simple.c makes of the entries of a diff.
use mathlib.Core.Path.{subst}
use seafile_server.Base.{
  ℕ, suc, ◌≡◌, refl, sym, ◌∙◌, ◌⊎◌, inl, inr, Option, none, some, List, [], ◌∷◌, str_eq, str_eq_iff,
  All, All-map, if_rule, if_split, Bool-cases,
}
use seafile_server.Diff.{
  Status, added, deleted, renamed, dir_added, dir_deleted, dir_renamed, DiffEntry, diff_entry_new,
}
use seafile_server.Diff.Renames.{
  Node, Table, Tables, Checks, insert, lookup, remove, collect_deleted, collect_added, delete_link,
  Resolving, rename_pair, forget, deleted_for, note_deleted, note_added, skips, rename_status,
  resolve_one, resolve, number, entries_in, diff_resolve_renames, no_tables, resolve_nodes,
}

abbrev pub Elem : DiffEntry → List DiffEntry → Type 0
Elem e [] = ⊥
Elem e (x ∷ xs) = (e ≡ x) ⊎ Elem e xs

-- The pair that a rename may be made of: an added and a deleted entry of one kind and content.
abbrev pub Pairs : Status → Status → Status → Type 0
Pairs added deleted s = s ≡ renamed
Pairs dir_added dir_deleted s = s ≡ dir_renamed
Pairs _ _ s = ⊥

pub record IsRename (before : List DiffEntry) (e : DiffEntry) : Type 0 where
  pub old : DiffEntry
  pub new : DiffEntry
  pub old_listed : Elem old before
  pub new_listed : Elem new before
  pub kinds : Pairs new.status old.status e.status
  pub same_content : old.sha1 ≡ new.sha1
  pub content : e.sha1 ≡ old.sha1
  pub old_name : e.name ≡ old.name
  pub new_name : e.new_name ≡ some new.name

module _ (before : List DiffEntry) where
  abbrev From : Node → Type 0
  From p = Elem p.entry before ⊎ IsRename before p.entry

  -- What stands in a table: nodes of the input with the status of the table, under their content.
  abbrev Filed : Status → Table → Type 0
  Filed s [] = Unit
  Filed s ((k, p) ∷ t) =
      (Elem p.entry before × (p.entry.status ≡ s) × (p.entry.sha1 ≡ k)) × Filed s t

  insert-Filed :
      (s : Status) (p : Node) (t : Table)
      → Elem p.entry before
      → p.entry.status ≡ s
      → Filed s t
      → Filed s (insert p.entry.sha1 p t)
  unfolding insert
  insert-Filed s p [] m e h = ((m, e, refl), tt)
  insert-Filed s p ((k, q) ∷ t) m e (h, hs) = elim (Bool-cases (str_eq p.entry.sha1 k)) [
    | inl same ↦ rw same ((m, e, (str_eq_iff p.entry.sha1 k).0 same), hs)
    | inr other ↦ rw other (h, insert-Filed s p t m e hs)
  ]

  remove-Filed : (s : Status) (key : List ℕ) (t : Table) → Filed s t → Filed s (remove key t)
  unfolding remove
  remove-Filed s key [] h = tt
  remove-Filed s key ((k, q) ∷ t) (h, hs) =
      if_rule (Filed s) (str_eq key k) t ((k, q) ∷ remove key t) hs (h, remove-Filed s key t hs)

  abbrev Hit : Status → List ℕ → Option Node → Type 0
  Hit s key none = Unit
  Hit s key (some p) = Elem p.entry before × (p.entry.status ≡ s) × (p.entry.sha1 ≡ key)

  lookup-Hit : (s : Status) (key : List ℕ) (t : Table) → Filed s t → Hit s key (lookup key t)
  unfolding lookup
  lookup-Hit s key [] h = tt
  lookup-Hit s key ((k, q) ∷ t) (h, hs) =
      if_split (Hit s key) (str_eq key k) (some q) (lookup key t)
        (λ same. (h.0, h.1, h.2 ∙ sym ((str_eq_iff key k).0 same))) (λ _. lookup-Hit s key t hs)

  record GoodTables (t : Tables) : Type 0 where
    files : Filed deleted t.deleted_files
    dirs : Filed dir_deleted t.deleted_dirs

  abbrev Listed : List Node → Type 0
  Listed = All (λ p. Elem p.entry before)

  -- An added node that waits for its deleted entry.
  abbrev Waiting : Node → Type 0
  Waiting p = Elem p.entry before × ((p.entry.status ≡ added) ⊎ (p.entry.status ≡ dir_added))

  delete_link-All : (p : Node) (ps : List Node) → All From ps → All From (delete_link p ps)
  unfolding delete_link
  delete_link-All p [] h = tt
  delete_link-All p (q ∷ qs) (h, hs) =
      if_rule (All From) _ qs (q ∷ delete_link p qs) hs (h, delete_link-All p qs hs)

  record GoodState (r : Resolving) : Type 0 where
    from : All From r.entries
    tables : GoodTables r.tables

  forget-Good :
      (s : Status) (key : List ℕ) (t : Tables) → GoodTables t → GoodTables (forget s key t)
  forget-Good dir_deleted key t g = record {
    files = g.files;
    dirs = remove-Filed dir_deleted key t.deleted_dirs g.dirs;
  }
  forget-Good _ key t g = record {
    files = remove-Filed deleted key t.deleted_files g.files;
    dirs = g.dirs;
  }

  pair-Good :
      (p : Node) (o : Option Node) (r : Resolving) (s : Status)
      → Elem p.entry before
      → Pairs p.entry.status s (rename_status p.entry.status)
      → Hit s p.entry.sha1 o
      → GoodState r
      → GoodState (rename_pair p o r)
  unfolding diff_entry_new
  pair-Good p none r s m k h g = g
  pair-Good p (some q) r s m k (hq, sq, kq) g = record {
    from = (
      inr (record {
        old = q.entry;
        new = p.entry;
        old_listed = hq;
        new_listed = m;
        kinds = subst (λ x. Pairs p.entry.status x (rename_status p.entry.status)) (sym sq) k;
        same_content = kq;
        content = refl;
        old_name = refl;
        new_name = refl;
      }),
      delete_link-All q _ (delete_link-All p r.entries g.from),
    );
    tables = forget-Good q.entry.status p.entry.sha1 r.tables g.tables;
  }

  resolve_one-Good :
      (p : Node) (r : Resolving) → Waiting p → GoodState r → GoodState (resolve_one p r)
  unfolding resolve_one
  resolve_one-Good p r (m, inl e) g =
      pair-Good p _ r deleted m (subst (λ x. Pairs x deleted (rename_status x)) (sym e) refl)
        (subst (λ x. Hit deleted p.entry.sha1 (deleted_for x p.entry.sha1 r.tables)) (sym e)
          (lookup-Hit deleted p.entry.sha1 r.tables.deleted_files g.tables.files))
        g
  resolve_one-Good p r (m, inr e) g =
      pair-Good p _ r dir_deleted m
        (subst (λ x. Pairs x dir_deleted (rename_status x)) (sym e) refl)
        (subst (λ x. Hit dir_deleted p.entry.sha1 (deleted_for x p.entry.sha1 r.tables)) (sym e)
          (lookup-Hit dir_deleted p.entry.sha1 r.tables.deleted_dirs g.tables.dirs))
        g

  resolve-Good :
      (ps : List Node) (r : Resolving) → All Waiting ps → GoodState r → GoodState (resolve ps r)
  unfolding resolve
  resolve-Good [] r h g = g
  resolve-Good (p ∷ ps) r (h, hs) g =
      resolve-Good ps (resolve_one p r) hs (resolve_one-Good p r h g)

  note_deleted-Good :
      (c : Checks) (p : Node) (s : Status) (t : Tables)
      → Elem p.entry before
      → p.entry.status ≡ s
      → GoodTables t
      → GoodTables (note_deleted c p s t)
  note_deleted-Good c p deleted t m e g =
      if_rule GoodTables (skips p.entry c.check_empty_file) t
        (record t { deleted_files = insert p.entry.sha1 p t.deleted_files }) g
        (record { files = insert-Filed deleted p t.deleted_files m e g.files; dirs = g.dirs })
  note_deleted-Good c p dir_deleted t m e g =
      if_rule GoodTables (skips p.entry c.check_empty_dir) t
        (record t { deleted_dirs = insert p.entry.sha1 p t.deleted_dirs }) g
        (record { files = g.files; dirs = insert-Filed dir_deleted p t.deleted_dirs m e g.dirs })
  note_deleted-Good c p _ t m e g = g

  collect_deleted-Good :
      (c : Checks) (ps : List Node) (t : Tables)
      → Listed ps
      → GoodTables t
      → GoodTables (collect_deleted c ps t)
  unfolding collect_deleted
  collect_deleted-Good c [] t h g = g
  collect_deleted-Good c (p ∷ ps) t (h, hs) g =
      collect_deleted-Good c ps _ hs (note_deleted-Good c p p.entry.status t h refl g)

  note_added-Waiting :
      (c : Checks) (p : Node) (s : Status) (found : List Node)
      → Elem p.entry before
      → p.entry.status ≡ s
      → All Waiting found
      → All Waiting (note_added c p s found)
  note_added-Waiting c p added found m e h =
      if_rule (All Waiting) (skips p.entry c.check_empty_file) found (p ∷ found) h ((m, inl e), h)
  note_added-Waiting c p dir_added found m e h =
      if_rule (All Waiting) (skips p.entry c.check_empty_dir) found (p ∷ found) h ((m, inr e), h)
  note_added-Waiting c p _ found m e h = h

  collect_added-Waiting :
      (c : Checks) (ps found : List Node)
      → Listed ps
      → All Waiting found
      → All Waiting (collect_added c ps found)
  unfolding collect_added
  collect_added-Waiting c [] found h k = k
  collect_added-Waiting c (p ∷ ps) found (h, hs) k =
      collect_added-Waiting c ps _ hs (note_added-Waiting c p p.entry.status found h refl k)

  resolve_nodes-Good : (ps : List Node) (c : Checks) → Listed ps → GoodState (resolve_nodes ps c)
  resolve_nodes-Good ps c h = resolve-Good _ _ (collect_added-Waiting c ps [] h tt) (record {
    from = All-map _ _ ps (λ p m. inl m) h;
    tables = collect_deleted-Good c ps no_tables h (record { files = tt; dirs = tt });
  })

  entries_in-All :
      (ps : List Node) → All From ps → All (λ e. Elem e before ⊎ IsRename before e) (entries_in ps)
  unfolding entries_in
  entries_in-All [] h = tt
  entries_in-All (p ∷ ps) (h, hs) = (h, entries_in-All ps hs)

number-Elem :
    (before es : List DiffEntry) (n : ℕ)
    → ((e : DiffEntry) → Elem e es → Elem e before)
    → All (λ p. Elem p.entry before) (number n es)
unfolding number
number-Elem before [] n h = tt
number-Elem before (e ∷ es) n h =
    (h e (inl refl), number-Elem before es (suc n) (λ x m. h x (inr m)))

-- Every entry that is left is an entry of the diff as it was, or it is a rename: of a deleted and
-- an added entry of the diff, both files or both directories, with the same content, under the
-- deleted one's name as the old and the added one's as the new name.
pub diff_resolve_renames_sound :
    (entries : List DiffEntry)
    → All (λ e. Elem e entries ⊎ IsRename entries e) (diff_resolve_renames entries)
unfolding diff_resolve_renames
diff_resolve_renames_sound entries =
    entries_in-All entries _
      (resolve_nodes-Good entries (number 0 entries) _
        (number-Elem entries entries 0 (λ e m. m))).from
