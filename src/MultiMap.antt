-- ===== src/MultiMap.antt =====
-- src/multi_map.rs: `MultiMap`, two hash maps of raw pointers to shared boxes.
-- The heap is a list of boxes under their addresses. A map's key is the address of the box that it
-- points into, so a comparison of keys reads the heap. A read or a free of a dead box is a fault,
-- `none`. Inserting puts an entry in front; the order of a map is not observed.
pub mod Pointers
pub mod Contents
pub mod Refinement
pub mod Replacing
mod Tests
use rathole_ng.Prelude.{
  ℕ, suc, ◌+◌, ◌≡◌, Bool, Option, none, some, List, [], ◌∷◌, ite, ◌==◌, if◌then◌else◌, ℕ_discrete,
}

abbrev pub Ptr : Type 0
Ptr = ℕ

-- `HashMap<Key<_>, RawItem<..>>`
abbrev pub PtrMap : Type 0
PtrMap = List (Ptr × Ptr)

module _ {A : Type 0} where
  unfoldable pub deref : List (Ptr × A) → Ptr → Option A
  deref [] p = none
  deref ((q, x) ∷ h) p = ite (ℕ_discrete q p) (some x) (deref h p)

  unfoldable pub without : List (Ptr × A) → Ptr → List (Ptr × A)
  without [] p = []
  without ((q, x) ∷ h) p = ite (ℕ_discrete q p) h ((q, x) ∷ without h p)

  -- `Box::from_raw` and the drop of the box
  unfoldable pub free : List (Ptr × A) → Ptr → Option (List (Ptr × A))
  free h p = elim (deref h p) [ none ↦ none | some _ ↦ some (without h p) ]

module _ {A K : Type 0} (dec : Discrete K) (key : A → K) (heap : List (Ptr × A)) (k : K) where
  -- `map.get(k)`: the keys on the way are read through their pointers.
  unfoldable pub find : PtrMap → Option (Option Ptr)
  find [] = some none
  find ((q, item) ∷ m) =
      let rest = find m in
      elim (deref heap q) [ none ↦ none | some x ↦ ite (dec (key x) k) (some (some item)) rest ]

  -- `map.remove(k)`: what was stored, and the map without it.
  unfoldable pub erase : PtrMap → Option (Option Ptr × PtrMap)
  erase [] = some (none, [])
  erase ((q, item) ∷ m) =
      let rest = erase m in
      elim (deref heap q) [
        | none ↦ none
        | some x ↦
            ite (dec (key x) k) (some (some item, m))
              (elim rest [ none ↦ none | some (found, m') ↦ some (found, (q, item) ∷ m') ])
      ]

-- The two maps, with the boxes of the heap that were made for them.
pub record MultiMap (K1 K2 V : Type 0) : Type 0 where
  pub heap : List (Ptr × (K1 × K2 × V))
  pub next : Ptr
  pub map1 : PtrMap
  pub map2 : PtrMap

module _ {K1 K2 V : Type 0} where
  abbrev pub key1 : K1 × K2 × V → K1
  key1 x = x.0

  abbrev pub key2 : K1 × K2 × V → K2
  key2 x = x.1

  unfoldable pub new : MultiMap K1 K2 V
  new = record { heap = []; next = 0; map1 = []; map2 = [] }

  -- The boxes of the second map are dropped one by one.
  unfoldable pub drop_all :
      List (Ptr × (K1 × K2 × V)) → PtrMap → Option (List (Ptr × (K1 × K2 × V)))
  drop_all heap [] = some heap
  drop_all heap ((_, item) ∷ m) = elim (free heap item) [
    | none ↦ none
    | some heap' ↦ drop_all heap' m
  ]

  unfoldable pub clear : MultiMap K1 K2 V → Option (MultiMap K1 K2 V)
  clear w = elim (drop_all w.heap w.map2) [
    | none ↦ none
    | some heap ↦ some (record { heap = heap; next = w.next; map1 = []; map2 = [] })
  ]

pub data Inserted : Type 0 where
  ok refused : Inserted

module _ {K1 K2 V : Type 0} (dec1 : Discrete K1) (dec2 : Discrete K2) where
  unfoldable pub store : K1 → K2 → V → MultiMap K1 K2 V → MultiMap K1 K2 V
  store k1 k2 v w =
      let p = w.next in
      record {
        heap = (p, (k1, k2, v)) ∷ w.heap;
        next = suc p;
        map1 = (p, p) ∷ w.map1;
        map2 = (p, p) ∷ w.map2;
      }

  unfoldable pub insert : K1 → K2 → V → MultiMap K1 K2 V → Option (MultiMap K1 K2 V × Inserted)
  insert k1 k2 v w = elim (find dec1 key1 w.heap k1 w.map1) [
    | none ↦ none
    | some (some _) ↦ some (w, Inserted.refused)
    | some none ↦ elim (find dec2 key2 w.heap k2 w.map2) [
      | none ↦ none
      | some (some _) ↦ some (w, Inserted.refused)
      | some none ↦ some (store k1 k2 v w, Inserted.ok)
    ]
  ]

  -- Reading through an item pointer.
  unfoldable pub read : MultiMap K1 K2 V → Option (Option Ptr) → Option (Option V)
  read w none = none
  read w (some none) = some none
  read w (some (some item)) = elim (deref w.heap item) [ none ↦ none | some x ↦ some (some x.2) ]

  unfoldable pub get1 : K1 → MultiMap K1 K2 V → Option (Option V)
  unfolding read
  get1 k1 w = read w (find dec1 key1 w.heap k1 w.map1)

  unfoldable pub get2 : K2 → MultiMap K1 K2 V → Option (Option V)
  unfolding read
  get2 k2 w = read w (find dec2 key2 w.heap k2 w.map2)

  -- The box is dropped after the other map has lost its entry.
  unfoldable pub remove1 : K1 → MultiMap K1 K2 V → Option (MultiMap K1 K2 V × Option V)
  remove1 k1 w = elim (erase dec1 key1 w.heap k1 w.map1) [
    | none ↦ none
    | some (none, _) ↦ some (w, none)
    | some (some item, m1) ↦ elim (deref w.heap item) [
      | none ↦ none
      | some x ↦ elim (erase dec2 key2 w.heap x.1 w.map2) [
        | none ↦ none
        | some (_, m2) ↦
            some (record w { heap = without w.heap item; map1 = m1; map2 = m2 }, some x.2)
      ]
    ]
  ]

  unfoldable pub remove2 : K2 → MultiMap K1 K2 V → Option (MultiMap K1 K2 V × Option V)
  remove2 k2 w = elim (erase dec2 key2 w.heap k2 w.map2) [
    | none ↦ none
    | some (none, _) ↦ some (w, none)
    | some (some item, m2) ↦ elim (deref w.heap item) [
      | none ↦ none
      | some x ↦ elim (erase dec1 key1 w.heap x.0 w.map1) [
        | none ↦ none
        | some (_, m1) ↦
            some (record w { heap = without w.heap item; map1 = m1; map2 = m2 }, some x.2)
      ]
    ]
  ]
