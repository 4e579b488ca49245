-- ===== src/MultiMap/Pointers.antt =====
-- Searching a map of pointers, while every box that it points into is alive.
use rathole_ng.Prelude.{
  ◌≤◌, ◌<◌, ◌≡◌, refl, Option, none, some, List, [], ◌∷◌, ite, if_pos, if_neg, ℕ_discrete, arith,
}
use rathole_ng.MultiMap.{Ptr, PtrMap, deref, without, find, erase}

module _ {A : Type 0} where
  -- The map that holds every box of the list.
  abbrev pub dups : List (Ptr × A) → PtrMap
  dups [] = []
  dups ((p, x) ∷ h) = (p, p) ∷ dups h

  -- Each box of the second list is alive in the first.
  abbrev pub Alive : List (Ptr × A) → List (Ptr × A) → Type 0
  Alive full [] = Unit
  Alive full ((p, x) ∷ h) = (deref full p ≡ some x) × Alive full h

  -- The addresses fall, so that they differ.
  abbrev pub Falling : Ptr → List (Ptr × A) → Type 0
  Falling n [] = Unit
  Falling n ((p, x) ∷ h) = (p < n) × Falling p h

module _ {A : Type 0} where
  Falling-mono : (m n : Ptr) (h : List (Ptr × A)) → m ≤ n → Falling m h → Falling n h
  Falling-mono m n [] le f = tt
  Falling-mono m n ((q, y) ∷ h) le f = (omega arith, f.1)

  pub without-Falling :
      (n : Ptr) (p : Ptr) (h : List (Ptr × A)) → Falling n h → Falling n (without h p)
  unfolding without
  without-Falling n p [] f = tt
  without-Falling n p ((q, x) ∷ h) f = elim (ℕ_discrete q p) [
    | yes e ↦ rw (if_pos (ℕ_discrete q p) e) (Falling-mono q n h (omega arith) f.1)
    | no e ↦ rw (if_neg (ℕ_discrete q p) e) (f.0, without-Falling q p h f.1)
  ]

  pub deref-without-lt : (n : Ptr) (h : List (Ptr × A)) → Falling n h → deref h n ≡ none
  unfolding deref
  deref-without-lt n [] f = refl
  deref-without-lt n ((q, x) ∷ h) f =
      ground (arith, deref-without-lt n h (Falling-mono q n h (omega arith) f.1))

  Alive-cons :
      (p : Ptr) (x : A) (full h : List (Ptr × A))
      → Falling p h
      → Alive full h
      → Alive ((p, x) ∷ full) h
  unfolding deref
  Alive-cons p x full [] f a = tt
  Alive-cons p x full ((q, y) ∷ h) f a =
      (ground arith, Alive-cons p x full h (Falling-mono q p h (omega arith) f.1) a.1)

  pub Falling-Alive : (n : Ptr) (h : List (Ptr × A)) → Falling n h → Alive h h
  unfolding deref
  Falling-Alive n [] f = tt
  Falling-Alive n ((p, x) ∷ h) f = (ground arith, Alive-cons p x h h f.1 (Falling-Alive p h f.1))

module _ {A K : Type 0} (dec : Discrete K) (key : A → K) where
  -- The address of the box with the key.
  unfoldable pub find_ptr : K → List (Ptr × A) → Option Ptr
  find_ptr k [] = none
  find_ptr k ((p, x) ∷ h) = ite (dec (key x) k) (some p) (find_ptr k h)

  unfoldable pub drop_key : K → List (Ptr × A) → List (Ptr × A)
  drop_key k [] = []
  drop_key k ((p, x) ∷ h) = ite (dec (key x) k) h ((p, x) ∷ drop_key k h)

  -- No two boxes have the same key.
  abbrev pub Distinct : List (Ptr × A) → Type 0
  Distinct [] = Unit
  Distinct ((p, x) ∷ h) = (find_ptr (key x) h ≡ none) × Distinct h

  pub find_lem :
      (full : List (Ptr × A)) (k : K) (h : List (Ptr × A))
      → Alive full h
      → find dec key full k (dups h) ≡ some (find_ptr k h)
  unfolding find find_ptr
  find_lem full k [] a = refl
  find_lem full k ((p, x) ∷ h) a = ground (arith, find_lem full k h a.1)

  pub erase_lem :
      (full : List (Ptr × A)) (k : K) (h : List (Ptr × A))
      → Alive full h
      → erase dec key full k (dups h) ≡ some (find_ptr k h, dups (drop_key k h))
  unfolding erase find_ptr drop_key
  erase_lem full k [] a = refl
  erase_lem full k ((p, x) ∷ h) a = ground (arith, erase_lem full k h a.1)

  pub find_ptr-lt :
      (n : Ptr) (k : K) (p : Ptr) (h : List (Ptr × A)) → Falling n h → find_ptr k h ≡ some p → p < n
  unfolding find_ptr
  find_ptr-lt n k p [] f e = cc
  find_ptr-lt n k p ((q, x) ∷ h) f e = ground (arith, find_ptr-lt q k p h f.1)

  -- Dropping the box with a key is dropping the box at its address.
  pub drop_key-without :
      (n : Ptr) (k : K) (p : Ptr) (h : List (Ptr × A))
      → Falling n h
      → find_ptr k h ≡ some p
      → drop_key k h ≡ without h p
  unfolding find_ptr drop_key without
  drop_key-without n k p [] f e = cc
  drop_key-without n k p ((q, x) ∷ h) f e =
      ground (arith, drop_key-without q k p h f.1, find_ptr-lt q k p h f.1)

  pub deref_of_find_ptr :
      (n : Ptr) (k : K) (p : Ptr) (h : List (Ptr × A))
      → Falling n h
      → find_ptr k h ≡ some p
      → (x : A) × (deref h p ≡ some x) × (key x ≡ k)
  unfolding find_ptr deref
  deref_of_find_ptr n k p [] f e = absurd (ground arith)
  deref_of_find_ptr n k p ((q, x) ∷ h) f e = elim (dec (key x) k) [
    | yes same ↦ (x, ground arith, same)
    | no other ↦
        let (y, here, keyed) = deref_of_find_ptr q k p h f.1 (ground arith) in
        (y, ground (arith, find_ptr-lt q k p h f.1), keyed)
  ]

  -- A box is found by its own key.
  pub find_ptr_of_deref :
      (p : Ptr) (x : A) (h : List (Ptr × A))
      → Distinct h
      → deref h p ≡ some x
      → find_ptr (key x) h ≡ some p
  unfolding find_ptr deref
  find_ptr_of_deref p x [] d e = cc
  find_ptr_of_deref p x ((q, y) ∷ h) d e = ground (arith, find_ptr_of_deref p x h d.1)

  -- Removing a box keeps the keys apart.
  find_ptr-without-none :
      (k : K) (p : Ptr) (h : List (Ptr × A)) → find_ptr k h ≡ none → find_ptr k (without h p) ≡ none
  unfolding find_ptr without
  find_ptr-without-none k p [] e = refl
  find_ptr-without-none k p ((q, x) ∷ h) e = ground (arith, find_ptr-without-none k p h)

  pub without-Distinct : (p : Ptr) (h : List (Ptr × A)) → Distinct h → Distinct (without h p)
  unfolding without
  without-Distinct p [] d = tt
  without-Distinct p ((q, x) ∷ h) d = elim (ℕ_discrete q p) [
    | yes e ↦ rw (if_pos (ℕ_discrete q p) e) d.1
    | no e ↦
        rw (if_neg (ℕ_discrete q p) e)
          (find_ptr-without-none (key x) p h d.0, without-Distinct p h d.1)
  ]
