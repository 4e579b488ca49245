-- ===== src/Server/Running/Kept.antt =====
-- What holds of every entry of a map, through the changes of the map.
use rathole_ng.Prelude.{◌≡◌, subst, some, List, [], ◌∷◌, arith, Option-cases, inl, inr, Every}
use rathole_ng.Collections.HashMap
use rathole_ng.MultiMap.{key1, key2}
use rathole_ng.MultiMap.Contents.{look, discard}
use rathole_ng.MultiMap.Refinement.{put}

module _ {K1 K2 V : Type 0} (dec1 : Discrete K1) (dec2 : Discrete K2)
    (P : K1 × K2 × V → Type 0) where
  pub Every-discard :
      (k : K1) (es : List (K1 × K2 × V)) → Every P es → Every P (discard dec1 key1 k es)
  unfolding discard
  Every-discard k [] h = tt
  Every-discard k (e ∷ es) h = ground (arith, Every-discard k es h.1)

  pub Every-put :
      (k1 : K1) (k2 : K2) (v : V) (es : List (K1 × K2 × V))
      → P (k1, k2, v)
      → Every P es
      → Every P (put dec1 dec2 k1 k2 v es).0
  unfolding put
  Every-put k1 k2 v es p h = elim (Option-cases (look dec1 key1 k1 es)) [
    | inr (x, e) ↦ rw (put, e) h
    | inl e ↦ elim (Option-cases (look dec2 key2 k2 es)) [
      | inr (x, e2) ↦ rw (put, e, e2) h
      | inl e2 ↦ rw (put, e, e2) (p, h)
    ]
  ]

module _ {A K : Type 0} (dec : Discrete K) (key : A → K) (P : A → Type 0) where
  pub Every-look :
      (k : K) (x : A) (es : List A) → look dec key k es ≡ some x → Every P es → P x × (key x ≡ k)
  unfolding look
  Every-look k x [] e h = absurd (ground arith)
  Every-look k x (y ∷ es) e h = elim (dec (key y) k) [
    | yes same ↦ let here : y ≡ x = ground arith in (subst P here h.0, ground arith)
    | no other ↦ Every-look k x es (ground arith) h.1
  ]

module _ {K V : Type 0} (dec : Discrete K) (P : K × V → Type 0) where
  pub Every-insert :
      (k : K) (v : V) (m : List (K × V)) → P (k, v) → Every P m → Every P (HashMap.insert dec k v m)
  unfolding HashMap.insert
  Every-insert k v [] p h = (p, tt)
  Every-insert k v ((j, w) ∷ m) p h = ground (arith, Every-insert k v m p h.1)

  pub Every-remove : (k : K) (m : List (K × V)) → Every P m → Every P (HashMap.remove dec k m)
  unfolding HashMap.remove
  Every-remove k [] h = tt
  Every-remove k ((j, w) ∷ m) h = ground (arith, Every-remove k m h.1)

  pub Every-get :
      (k : K) (v : V) (m : List (K × V)) → HashMap.get dec k m ≡ some v → Every P m → P (k, v)
  unfolding HashMap.get
  Every-get k v [] e h = absurd (ground arith)
  Every-get k v ((j, w) ∷ m) e h =
      ground (arith, λ (e' : HashMap.get dec k m ≡ some v). Every-get k v m e' h.1)
