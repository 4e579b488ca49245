-- ===== src/MultiMap/Tests.antt =====
-- A map with two entries.
use rathole_ng.Prelude.{ℕ, ◌≡◌, refl, some, [], ◌∷◌, ℕ_discrete, arith}
use rathole_ng.MultiMap.{MultiMap, Inserted, key1, insert, remove1}
use rathole_ng.MultiMap.Pointers.{find_ptr}
use rathole_ng.MultiMap.Contents.{look, discard, entries, value_of, IsValid}
use rathole_ng.MultiMap.Refinement.{put, insert_refines, remove1_refines}

abbrev Map : Type 0
Map = MultiMap ℕ ℕ ℕ

abbrev two_entries : Map
two_entries = record {
  heap = (1, (10, 20, 30)) ∷ (0, (11, 21, 31)) ∷ [];
  next = 2;
  map1 = (1, 1) ∷ (0, 0) ∷ [];
  map2 = (1, 1) ∷ (0, 0) ∷ [];
}

two_entries-IsValid : IsValid ℕ_discrete ℕ_discrete two_entries
unfolding find_ptr
two_entries-IsValid = record {
  map1_full = refl;
  map2_full = refl;
  falling = (omega arith, (omega arith, tt));
  distinct1 = (ground arith, (refl, tt));
  distinct2 = (ground arith, (refl, tt));
}

insert_refines_example :
    (w' : Map) × (r : Inserted) × (insert ℕ_discrete ℕ_discrete 12 21 5 two_entries ≡ some (w', r))
    × IsValid ℕ_discrete ℕ_discrete w'
    × ((entries w', r) ≡ put ℕ_discrete ℕ_discrete 12 21 5 (entries two_entries))
insert_refines_example =
    insert_refines ℕ_discrete ℕ_discrete two_entries 12 21 5 two_entries-IsValid

remove1_refines_example :
    (w' : Map) × (remove1 ℕ_discrete ℕ_discrete 11 two_entries
      ≡ some (w', value_of (look ℕ_discrete key1 11 (entries two_entries))))
    × IsValid ℕ_discrete ℕ_discrete w'
    × (entries w' ≡ discard ℕ_discrete key1 11 (entries two_entries))
remove1_refines_example = remove1_refines ℕ_discrete ℕ_discrete two_entries 11 two_entries-IsValid
