-- ===== src/Tests/Merges.antt =====
-- Merges of the small repository.
use seafile_server.Base.{
  ◌<◌, length, none, ◌≡◌, ◌≢◌, ◌⊎◌, refl, inl, inr, true, false, ◌||◌, ◌++◌, map, some, List, [],
  ◌∷◌, codes, str_lt, str_eq,
}
use seafile_server.Fs.{Dirent, is_reg, is_dir, get_seafdir, dir_new}
use seafile_server.Walk.{three}
use seafile_server.Walk.Depth.{Shallow}
use seafile_server.Merge.{success, out_of_fuel}
use seafile_server.Merge.Conflict.{gen_conflict_path, conflict_mark}
use seafile_server.Merge.Copies.{gen_conflict_path-extension, gen_conflict_path_longer}
use seafile_server.Merge.Entries.{merge_entries}
use seafile_server.Merge.Trees.{seaf_merge_trees}
use seafile_server.Merge.Names.{Merging}
use seafile_server.Merge.Unchanged.{
  IsTree, SameFiles, object_of, merge-remote_unchanged, merge-same_sides, merge-head_unchanged,
}
use seafile_server.Merge.Store.{Grows, seaf_merge_trees-Grows}
use seafile_server.Merge.Ends.{seaf_merge_trees_terminates}
use seafile_server.Merge.ThreeWay.{three_way, in_conflict, merge_entries-three_way}
use seafile_server.Tests.Trees.{
  file, notes, plan, sub_dir, base_dir, head_dir, remote_dir, store, env, start,
}

merging : Merging env
merging = record { three_ways = refl; wanted = refl }

pub base_loads : get_seafdir store 1 base_dir.dir_id ≡ some base_dir
unfolding get_seafdir str_eq
base_loads = refl

pub head_loads : get_seafdir store 1 head_dir.dir_id ≡ some head_dir
unfolding get_seafdir str_eq
head_loads = refl

remote_loads : get_seafdir store 1 remote_dir.dir_id ≡ some remote_dir
unfolding get_seafdir str_eq
remote_loads = refl

sub_loads : get_seafdir store 1 sub_dir.dir_id ≡ some sub_dir
unfolding get_seafdir str_eq
sub_loads = refl

base_ok : IsTree env base_dir
unfolding is_reg is_dir str_lt dir_new
base_ok = record {
  kinds = (inr refl, (inl refl, tt));
  in_order = ((refl, tt), (tt, tt));
  own_id = refl;
}

head_ok : IsTree env head_dir
unfolding is_reg is_dir str_lt dir_new
head_ok = record {
  kinds = (inl refl, (inr refl, (inl refl, tt)));
  in_order = ((refl, (refl, tt)), ((refl, tt), (tt, tt)));
  own_id = refl;
}

remote_ok : IsTree env remote_dir
unfolding is_reg is_dir str_lt dir_new
remote_ok = record {
  kinds = (inl refl, (inr refl, tt));
  in_order = ((refl, tt), (tt, tt));
  own_id = refl;
}

merge-remote_unchanged_example :
    seaf_merge_trees env 1 (three base_dir.dir_id head_dir.dir_id base_dir.dir_id) start
    ≡ (success, record start { merged_tree_root = head_dir.dir_id })
merge-remote_unchanged_example =
    merge-remote_unchanged env merging 0 start base_dir.dir_id head_dir.dir_id base_loads head_loads
      base_ok head_ok

merge-same_sides_example :
    seaf_merge_trees env 1 (three base_dir.dir_id head_dir.dir_id head_dir.dir_id) start
    ≡ (success, record start { merged_tree_root = head_dir.dir_id })
merge-same_sides_example =
    merge-same_sides env merging 0 start base_dir.dir_id head_dir.dir_id base_loads head_loads
      base_ok head_ok

merge-head_unchanged_example :
    let (rc, t) =
      seaf_merge_trees env 1 (three base_dir.dir_id base_dir.dir_id remote_dir.dir_id) start in
    (l : List Dirent) × SameFiles l remote_dir.entries
    × (t.merged_tree_root ≡ (object_of env l).dir_id)
    × (t.conflict ≡ false)
    × (t.visit_dirs ≡ 0)
    × ((rc ≡ success) ⊎ (env.write_ok (object_of env l).dir_id ≡ false))
merge-head_unchanged_example =
    merge-head_unchanged env merging 0 start base_dir.dir_id remote_dir.dir_id base_loads
      remote_loads base_ok remote_ok

seaf_merge_trees-Grows_example :
    Grows env start
      (seaf_merge_trees env 1 (three base_dir.dir_id head_dir.dir_id remote_dir.dir_id) start).1
seaf_merge_trees-Grows_example =
    seaf_merge_trees-Grows env 1 (three base_dir.dir_id head_dir.dir_id remote_dir.dir_id) start

not_dir : is_dir plan.mode ≢ true
unfolding is_dir
not_dir = λ h. cc

sub-Shallow : Shallow store 1 1 sub_dir.dir_id
sub-Shallow = (sub_dir, sub_loads, (λ h. absurd (not_dir h), tt))

pub base-Shallow : Shallow store 1 2 base_dir.dir_id
base-Shallow = (base_dir, base_loads, (λ h. sub-Shallow, (λ h. absurd (not_dir h), tt)))

pub head-Shallow : Shallow store 1 2 head_dir.dir_id
head-Shallow = (
  head_dir,
  head_loads,
  (λ h. absurd (not_dir h), (λ h. sub-Shallow, (λ h. absurd (not_dir h), tt))),
)

remote-Shallow : Shallow store 1 2 remote_dir.dir_id
remote-Shallow = (remote_dir, remote_loads, (λ h. absurd (not_dir h), (λ h. sub-Shallow, tt)))

seaf_merge_trees_terminates_example :
    (seaf_merge_trees env 2 (three base_dir.dir_id head_dir.dir_id remote_dir.dir_id) start).0
    ≢ out_of_fuel
seaf_merge_trees_terminates_example =
    seaf_merge_trees_terminates env 2 (three base_dir.dir_id head_dir.dir_id remote_dir.dir_id)
      start (base-Shallow, head-Shallow, remote-Shallow)

abbrev theirs : Dirent
theirs = file (codes "notes") (codes "5")

abbrev ours : Dirent
ours = file (codes "notes") (codes "6")

is_file : is_reg 0x81A4 ≡ true
unfolding is_reg
is_file = refl

merge_entries-three_way_example :
    let r = merge_entries env [] (three (some notes) (some ours) (some theirs)) [] start in
    (r.0 ≡ success)
    × (map (λ (d : Dirent). d.id) r.2 ≡ three_way (some notes) (some ours) (some theirs) ++ [])
    × (r.3.conflict ≡ (false || in_conflict (some notes) (some ours) (some theirs)))
merge_entries-three_way_example =
    merge_entries-three_way env merging (λ h. cc) [] (some notes) (some ours) (some theirs) [] start
      is_file is_file is_file

-- The contents put out are the remote's and the head's.
both_kept : three_way (some notes) (some ours) (some theirs) ≡ codes "5" ∷ codes "6" ∷ []
unfolding str_eq
both_kept = refl

conflict_name :
    gen_conflict_path (codes "a.txt") (some (codes "ann")) (codes "2020")
    ≡ codes "a (SFConflict ann 2020).txt"
unfolding gen_conflict_path
conflict_name = refl

gen_conflict_path-extension_example :
    (gen_conflict_path (codes "a.b" ++ b'.' ∷ codes "txt") none (codes "2020")
      ≡ codes "a.b" ++ (conflict_mark none (codes "2020") ++ b'.' ∷ codes "txt"))
    × (gen_conflict_path (codes "txt") none (codes "2020")
        ≡ codes "txt" ++ conflict_mark none (codes "2020"))
gen_conflict_path-extension_example =
    gen_conflict_path-extension (codes "a.b") (codes "txt") none (codes "2020")
      (refl, (refl, (refl, tt)))

gen_conflict_path_longer_example :
    length (codes "a.txt")
    < length (gen_conflict_path (codes "a.txt") (some (codes "ann")) (codes "2020"))
gen_conflict_path_longer_example =
    gen_conflict_path_longer (codes "a.txt") (some (codes "ann")) (codes "2020")
