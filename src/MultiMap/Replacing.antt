-- ===== src/MultiMap/Replacing.antt =====
-- src/multi_map.rs: the entry of a first key gives way to a new one, as the server replaces a
-- channel.
use rathole_ng.Prelude.{
  ◌≡◌, refl, ap, ◌∙◌, Option, none, some, List, [], ◌∷◌, arith, Option-cases, inl, inr,
}
use rathole_ng.MultiMap.{MultiMap, Inserted, key1, key2, insert, get1, get2, remove1}
use rathole_ng.MultiMap.Contents.{look, look-discard, discard, entries, IsValid, value_of}
use rathole_ng.MultiMap.Refinement.{put, get_refines, insert_refines, remove1_refines}

module _ {K1 K2 V : Type 0} (dec1 : Discrete K1) (dec2 : Discrete K2) where
  look-discard-none :
      (k1 : K1) (k2 : K2) (es : List (K1 × K2 × V))
      → look dec2 key2 k2 es ≡ none
      → look dec2 key2 k2 (discard dec1 key1 k1 es) ≡ none
  unfolding look discard
  look-discard-none k1 k2 [] e = refl
  look-discard-none k1 k2 (x ∷ es) e = ground (arith, look-discard-none k1 k2 es)

  look_of_get2 :
      (w : MultiMap K1 K2 V) (k1 : K1) (k2 : K2)
      → IsValid dec1 dec2 w
      → get2 dec1 dec2 k2 w ≡ some none
      → look dec2 key2 k2 (entries w) ≡ none
  look_of_get2 w k1 k2 v e = elim (Option-cases (look dec2 key2 k2 (entries w))) [
    | inl e2 ↦ e2
    | inr (x, found) ↦ absurd (ground (arith, (get_refines dec1 dec2 w k1 k2 v).1))
  ]

  put_fresh :
      (k1 : K1) (k2 : K2) (x : V) (es : List (K1 × K2 × V))
      → look dec1 key1 k1 es ≡ none
      → look dec2 key2 k2 es ≡ none
      → put dec1 dec2 k1 k2 x es ≡ ((k1, k2, x) ∷ es, Inserted.ok)
  unfolding put
  put_fresh k1 k2 x es e1 e2 = rw (put, e1, e2) refl

  look_first :
      (k1 : K1) (k2 : K2) (x : V) (es : List (K1 × K2 × V))
      → (value_of (look dec1 key1 k1 ((k1, k2, x) ∷ es)) ≡ some x)
        × (value_of (look dec2 key2 k2 ((k1, k2, x) ∷ es)) ≡ some x)
  unfolding look
  look_first k1 k2 x es = (ground arith, ground arith)

  -- Where the second key is new, removing by the first key and inserting succeed, and both keys
  -- find the new value.
  pub replace_lem :
      (w : MultiMap K1 K2 V) (k1 : K1) (k2 : K2) (x : V)
      → IsValid dec1 dec2 w
      → get2 dec1 dec2 k2 w ≡ some none
      → (a b : MultiMap K1 K2 V) × (old : Option V) × (remove1 dec1 dec2 k1 w ≡ some (a, old))
        × (insert dec1 dec2 k1 k2 x a ≡ some (b, Inserted.ok))
        × IsValid dec1 dec2 b
        × (get1 dec1 dec2 k1 b ≡ some (some x))
        × (get2 dec1 dec2 k2 b ≡ some (some x))
        × (entries b ≡ (k1, k2, x) ∷ discard dec1 key1 k1 (entries w))
  replace_lem w k1 k2 x v free =
      let (a, e, va, same) = remove1_refines dec1 dec2 w k1 v in
      let (b, r, e', vb, same') = insert_refines dec1 dec2 a k1 k2 x va in
      let es = discard dec1 key1 k1 (entries w) in
      let now =
        same'
        ∙ ap (put dec1 dec2 k1 k2 x) same
        ∙ put_fresh k1 k2 x es (look-discard dec1 key1 k1 w.heap v.distinct1)
            (look-discard-none k1 k2 (entries w) (look_of_get2 w k1 k2 v free)) in
      let (got1, got2) = get_refines dec1 dec2 b k1 k2 vb in
      let found = look_first k1 k2 x es in
      (
        a,
        b,
        value_of (look dec1 key1 k1 (entries w)),
        e,
        e' ∙ ap (λ r. some (b, r)) (ap (λ p. p.1) now),
        vb,
        got1 ∙ ap some (rw (ap (λ p. p.0) now) found.0),
        got2 ∙ ap some (rw (ap (λ p. p.0) now) found.1),
        ap (λ p. p.0) now,
      )
