-- ===== src/MultiMap/Refinement.antt =====
-- src/multi_map.rs: what `MultiMap` promises, a list of entries with two keys each.
use rathole_ng.Prelude.{
  ◌≡◌, refl, sym, ap, none, some, List, [], ◌∷◌, arith, Option-cases, inl, inr,
}
use rathole_ng.MultiMap.{
  Ptr, MultiMap, Inserted, deref, without, free, key1, key2, drop_all, clear, store, insert, read,
  get1, get2, remove1, remove2,
}
use rathole_ng.MultiMap.Pointers.{
  dups, Falling, find_ptr, drop_key-without, deref_of_find_ptr, find_ptr_of_deref, without-Falling,
  without-Distinct,
}
use rathole_ng.MultiMap.Contents.{
  look, discard, discard-contents, look-none, discard-none, look-some, entries, IsValid, find1,
  find2, erase1, erase2, value_of,
}

module _ {K1 K2 V : Type 0} (dec1 : Discrete K1) (dec2 : Discrete K2) where
  read_lem :
      {K : Type 0} (dec : Discrete K) (key : K1 × K2 × V → K) (k : K) (w : MultiMap K1 K2 V)
      → Falling w.next w.heap
      → read dec1 dec2 w (some (find_ptr dec key k w.heap))
        ≡ some (value_of (look dec key k (entries w)))
  unfolding read
  read_lem dec key k w f = elim (Option-cases (find_ptr dec key k w.heap)) [
    | inl e ↦ rw (e, look-none dec key k w.heap e) refl
    | inr (p, e) ↦
        let (x, d, _) = deref_of_find_ptr dec key w.next k p w.heap f e in
        rw (e, look-some dec key w.next k p x w.heap f e d, read, d) refl
  ]

  -- On a valid map both lookups read live boxes only, and give the value of the entry with the key.
  pub get_refines :
      (w : MultiMap K1 K2 V) (k1 : K1) (k2 : K2)
      → IsValid dec1 dec2 w
      → (get1 dec1 dec2 k1 w ≡ some (value_of (look dec1 key1 k1 (entries w))))
        × (get2 dec1 dec2 k2 w ≡ some (value_of (look dec2 key2 k2 (entries w))))
  unfolding get1 get2
  get_refines w k1 k2 v = (
    rw (find1 dec1 dec2 w k1 v) (read_lem dec1 key1 k1 w v.falling),
    rw (find2 dec1 dec2 w k2 v) (read_lem dec2 key2 k2 w v.falling),
  )

  -- A map with one box less, in the heap and in both maps.
  abbrev without_box : MultiMap K1 K2 V → Ptr → MultiMap K1 K2 V
  without_box w p = record w {
    heap = without w.heap p;
    map1 = dups (without w.heap p);
    map2 = dups (without w.heap p);
  }

  without_box-IsValid :
      (w : MultiMap K1 K2 V) (p : Ptr) → IsValid dec1 dec2 w → IsValid dec1 dec2 (without_box w p)
  without_box-IsValid w p v = record {
    map1_full = refl;
    map2_full = refl;
    falling = without-Falling w.next p w.heap v.falling;
    distinct1 = without-Distinct dec1 key1 p w.heap v.distinct1;
    distinct2 = without-Distinct dec2 key2 p w.heap v.distinct2;
  }

  -- Removing by the first key reads and frees live boxes only, and leaves a valid map. It returns
  -- the value of the entry with the key, and exactly that entry leaves.
  pub remove1_refines :
      (w : MultiMap K1 K2 V) (k : K1)
      → IsValid dec1 dec2 w
      → (w' : MultiMap K1 K2 V) × (remove1 dec1 dec2 k w
          ≡ some (w', value_of (look dec1 key1 k (entries w))))
        × IsValid dec1 dec2 w'
        × (entries w' ≡ discard dec1 key1 k (entries w))
  unfolding remove1
  remove1_refines w k v = elim (Option-cases (find_ptr dec1 key1 k w.heap)) [
    | inl e ↦ (
      w,
      rw (remove1, erase1 dec1 dec2 w k v, e, look-none dec1 key1 k w.heap e) refl,
      v,
      sym (discard-none dec1 key1 k w.heap e),
    )
    | inr (p, e) ↦
        let (x, d, _) = deref_of_find_ptr dec1 key1 w.next k p w.heap v.falling e in
        let e2 = find_ptr_of_deref dec2 key2 p x w.heap v.distinct2 d in
        let same1 = drop_key-without dec1 key1 w.next k p w.heap v.falling e in
        let same2 = drop_key-without dec2 key2 w.next (key2 x) p w.heap v.falling e2 in
        (
          without_box w p,
          rw
              (
                remove1,
                erase1 dec1 dec2 w k v,
                e,
                d,
                erase2 dec1 dec2 w (key2 x) v,
                same1,
                same2,
                look-some dec1 key1 w.next k p x w.heap v.falling e d,
              )
              refl,
          without_box-IsValid w p v,
          rw (discard-contents dec1 key1 k w.heap, same1) refl,
        )
  ]

  -- Removing by the second key does the same, by that key.
  pub remove2_refines :
      (w : MultiMap K1 K2 V) (k : K2)
      → IsValid dec1 dec2 w
      → (w' : MultiMap K1 K2 V) × (remove2 dec1 dec2 k w
          ≡ some (w', value_of (look dec2 key2 k (entries w))))
        × IsValid dec1 dec2 w'
        × (entries w' ≡ discard dec2 key2 k (entries w))
  unfolding remove2
  remove2_refines w k v = elim (Option-cases (find_ptr dec2 key2 k w.heap)) [
    | inl e ↦ (
      w,
      rw (remove2, erase2 dec1 dec2 w k v, e, look-none dec2 key2 k w.heap e) refl,
      v,
      sym (discard-none dec2 key2 k w.heap e),
    )
    | inr (p, e) ↦
        let (x, d, _) = deref_of_find_ptr dec2 key2 w.next k p w.heap v.falling e in
        let e1 = find_ptr_of_deref dec1 key1 p x w.heap v.distinct1 d in
        let same1 = drop_key-without dec1 key1 w.next (key1 x) p w.heap v.falling e1 in
        let same2 = drop_key-without dec2 key2 w.next k p w.heap v.falling e in
        (
          without_box w p,
          rw
              (
                remove2,
                erase2 dec1 dec2 w k v,
                e,
                d,
                erase1 dec1 dec2 w (key1 x) v,
                same1,
                same2,
                look-some dec2 key2 w.next k p x w.heap v.falling e d,
              )
              refl,
          without_box-IsValid w p v,
          rw (discard-contents dec2 key2 k w.heap, same2) refl,
        )
  ]

  -- The list of entries that a call of `insert` promises, and its answer.
  unfoldable pub put : K1 → K2 → V → List (K1 × K2 × V) → List (K1 × K2 × V) × Inserted
  put k1 k2 v es = elim (look dec1 key1 k1 es) [
    | some _ ↦ (es, Inserted.refused)
    | none ↦ elim (look dec2 key2 k2 es) [
      | some _ ↦ (es, Inserted.refused)
      | none ↦ ((k1, k2, v) ∷ es, Inserted.ok)
    ]
  ]

  store-IsValid :
      (w : MultiMap K1 K2 V) (k1 : K1) (k2 : K2) (x : V)
      → IsValid dec1 dec2 w
      → find_ptr dec1 key1 k1 w.heap ≡ none
      → find_ptr dec2 key2 k2 w.heap ≡ none
      → IsValid dec1 dec2 (store dec1 dec2 k1 k2 x w)
  unfolding store
  store-IsValid w k1 k2 x v free1 free2 = record {
    map1_full = ap (λ m. (w.next, w.next) ∷ m) v.map1_full;
    map2_full = ap (λ m. (w.next, w.next) ∷ m) v.map2_full;
    falling = (omega arith, v.falling);
    distinct1 = (free1, v.distinct1);
    distinct2 = (free2, v.distinct2);
  }

  -- Inserting reads live boxes only and leaves a valid map. The entry is added exactly when neither
  -- of its keys is taken, and nothing else changes.
  pub insert_refines :
      (w : MultiMap K1 K2 V) (k1 : K1) (k2 : K2) (x : V)
      → IsValid dec1 dec2 w
      → (w' : MultiMap K1 K2 V) × (r : Inserted) × (insert dec1 dec2 k1 k2 x w ≡ some (w', r))
        × IsValid dec1 dec2 w'
        × ((entries w', r) ≡ put k1 k2 x (entries w))
  unfolding put insert store
  insert_refines w k1 k2 x v = elim (Option-cases (find_ptr dec1 key1 k1 w.heap)) [
    | inr (p, e) ↦
        let (y, d, _) = deref_of_find_ptr dec1 key1 w.next k1 p w.heap v.falling e in
        (
          w,
          Inserted.refused,
          rw (insert, find1 dec1 dec2 w k1 v, e) refl,
          v,
          rw (put, look-some dec1 key1 w.next k1 p y w.heap v.falling e d) refl,
        )
    | inl e1 ↦ elim (Option-cases (find_ptr dec2 key2 k2 w.heap)) [
      | inr (p, e) ↦
          let (y, d, _) = deref_of_find_ptr dec2 key2 w.next k2 p w.heap v.falling e in
          (
            w,
            Inserted.refused,
            rw (insert, find1 dec1 dec2 w k1 v, e1, find2 dec1 dec2 w k2 v, e) refl,
            v,
            rw
                (
                  put,
                  look-none dec1 key1 k1 w.heap e1,
                  look-some dec2 key2 w.next k2 p y w.heap v.falling e d,
                )
                refl,
          )
      | inl e2 ↦ (
        store dec1 dec2 k1 k2 x w,
        Inserted.ok,
        rw (insert, find1 dec1 dec2 w k1 v, e1, find2 dec1 dec2 w k2 v, e2) refl,
        store-IsValid w k1 k2 x v e1 e2,
        rw (put, look-none dec1 key1 k1 w.heap e1, look-none dec2 key2 k2 w.heap e2) refl,
      )
    ]
  ]

  drop_all-dups :
      (n : Ptr) (h : List (Ptr × (K1 × K2 × V))) → Falling n h → drop_all h (dups h) ≡ some []
  unfolding drop_all free deref without
  drop_all-dups n [] f = refl
  drop_all-dups n ((p, x) ∷ h) f = ground (arith, drop_all-dups p h f.1)

  -- Clearing a valid map frees each of its boxes once: no box stays, and none is freed twice.
  pub clear_frees :
      (w : MultiMap K1 K2 V)
      → IsValid dec1 dec2 w
      → (w' : MultiMap K1 K2 V) × (clear w ≡ some w') × IsValid dec1 dec2 w' × (w'.heap ≡ [])
  unfolding clear
  clear_frees w v = (
    record { heap = []; next = w.next; map1 = []; map2 = [] },
    simp (clear, v.map2_full, drop_all-dups w.next w.heap v.falling),
    record { map1_full = refl; map2_full = refl; falling = tt; distinct1 = tt; distinct2 = tt },
    refl,
  )
