-- ===== src/MultiMap/Contents.antt =====
-- The entries of a `MultiMap` as a list, and the maps whose pointers are in order.
use rathole_ng.Prelude.{◌≡◌, refl, Option, none, some, List, [], ◌∷◌, ite, arith}
use rathole_ng.MultiMap.{Ptr, MultiMap, deref, find, erase, key1, key2}
use rathole_ng.MultiMap.Pointers.{
  Distinct, dups, Alive, Falling, Distinct, find_ptr, drop_key, find_lem, erase_lem, find_ptr-lt,
  Falling-Alive,
}

-- The entries of the boxes.
abbrev pub contents : {A : Type 0} → List (Ptr × A) → List A
contents [] = []
contents ((p, x) ∷ h) = x ∷ contents h

module _ {A K : Type 0} (dec : Discrete K) (key : A → K) where
  -- The first entry with the key.
  unfoldable pub look : K → List A → Option A
  look k [] = none
  look k (x ∷ es) = ite (dec (key x) k) (some x) (look k es)

  -- The list without that entry.
  unfoldable pub discard : K → List A → List A
  discard k [] = []
  discard k (x ∷ es) = ite (dec (key x) k) es (x ∷ discard k es)

  pub discard-contents :
      (k : K) (h : List (Ptr × A)) → discard k (contents h) ≡ contents (drop_key dec key k h)
  unfolding discard drop_key
  discard-contents k [] = refl
  discard-contents k ((p, x) ∷ h) = ground (arith, discard-contents k h)

  pub look-none :
      (k : K) (h : List (Ptr × A)) → find_ptr dec key k h ≡ none → look k (contents h) ≡ none
  unfolding look find_ptr
  look-none k [] e = refl
  look-none k ((p, x) ∷ h) e = ground (arith, look-none k h)

  pub discard-none :
      (k : K) (h : List (Ptr × A))
      → find_ptr dec key k h ≡ none
      → discard k (contents h) ≡ contents h
  unfolding discard find_ptr
  discard-none k [] e = refl
  discard-none k ((p, x) ∷ h) e = ground (arith, discard-none k h)

  pub look-discard :
      (k : K) (h : List (Ptr × A)) → Distinct dec key h → look k (discard k (contents h)) ≡ none
  unfolding look discard
  look-discard k [] d = refl
  look-discard k ((p, x) ∷ h) d = ground (arith, look-discard k h d.1, look-none (key x) h d.0)

  pub look-some :
      (n : Ptr) (k : K) (p : Ptr) (x : A) (h : List (Ptr × A))
      → Falling n h
      → find_ptr dec key k h ≡ some p
      → deref h p ≡ some x
      → look k (contents h) ≡ some x
  unfolding look find_ptr deref
  look-some n k p x [] f e d = absurd (ground arith)
  look-some n k p x ((q, y) ∷ h) f e d =
      ground (arith, look-some q k p x h f.1, find_ptr-lt dec key q k p h f.1)

module _ {K1 K2 V : Type 0} where
  abbrev pub entries : MultiMap K1 K2 V → List (K1 × K2 × V)
  entries w = contents w.heap

  -- The value part of an entry.
  abbrev pub value_of : Option (K1 × K2 × V) → Option V
  value_of none = none
  value_of (some x) = some x.2

module _ {K1 K2 V : Type 0} (dec1 : Discrete K1) (dec2 : Discrete K2) where
  -- Both maps hold every box that is alive, and no other; keys are not shared.
  pub record IsValid (w : MultiMap K1 K2 V) : Type 0 where
    pub map1_full : w.map1 ≡ dups w.heap
    pub map2_full : w.map2 ≡ dups w.heap
    pub falling : Falling w.next w.heap
    pub distinct1 : Distinct dec1 key1 w.heap
    pub distinct2 : Distinct dec2 key2 w.heap

  alive : (w : MultiMap K1 K2 V) → IsValid w → Alive w.heap w.heap
  alive w v = Falling-Alive w.next w.heap v.falling

  pub find1 :
      (w : MultiMap K1 K2 V) (k : K1)
      → IsValid w
      → find dec1 key1 w.heap k w.map1 ≡ some (find_ptr dec1 key1 k w.heap)
  find1 w k v = rw (v.map1_full) (find_lem dec1 key1 w.heap k w.heap (alive w v))

  pub find2 :
      (w : MultiMap K1 K2 V) (k : K2)
      → IsValid w
      → find dec2 key2 w.heap k w.map2 ≡ some (find_ptr dec2 key2 k w.heap)
  find2 w k v = rw (v.map2_full) (find_lem dec2 key2 w.heap k w.heap (alive w v))

  pub erase1 :
      (w : MultiMap K1 K2 V) (k : K1)
      → IsValid w
      → erase dec1 key1 w.heap k w.map1
        ≡ some (find_ptr dec1 key1 k w.heap, dups (drop_key dec1 key1 k w.heap))
  erase1 w k v = rw (v.map1_full) (erase_lem dec1 key1 w.heap k w.heap (alive w v))

  pub erase2 :
      (w : MultiMap K1 K2 V) (k : K2)
      → IsValid w
      → erase dec2 key2 w.heap k w.map2
        ≡ some (find_ptr dec2 key2 k w.heap, dups (drop_key dec2 key2 k w.heap))
  erase2 w k v = rw (v.map2_full) (erase_lem dec2 key2 w.heap k w.heap (alive w v))
