-- ===== src/Collections/BTreeMap.antt =====
-- `std::collections::BTreeMap<u64, _>`: the entries in the order of their keys.
use rathole_ng.Prelude.{
  ℕ, suc, ◌+◌, ◌≤◌, ◌<◌, ◌≡◌, refl, Bool, true, false, Option, none, some, List, [], ◌∷◌, arith,
  ltb, ◌==◌, if◌then◌else◌, length,
}

module _ {ℓ} {V : Type ℓ} where
  unfoldable pub get : ℕ → List (ℕ × V) → Option V
  get k [] = none
  get k ((j, v) ∷ m) = if j == k then some v else get k m

  unfoldable pub contains_key : ℕ → List (ℕ × V) → Bool
  contains_key k [] = false
  contains_key k ((j, v) ∷ m) = if j == k then true else contains_key k m

  unfoldable pub insert : ℕ → V → List (ℕ × V) → List (ℕ × V)
  insert k v [] = (k, v) ∷ []
  insert k v ((j, w) ∷ m) =
      let rest = insert k v m in
      if ltb k j then (k, v) ∷ (j, w) ∷ m else if j == k then (k, v) ∷ m else (j, w) ∷ rest

  -- The keys of a map are distinct, so that one entry goes at most.
  unfoldable pub remove : ℕ → List (ℕ × V) → List (ℕ × V)
  remove k [] = []
  remove k ((j, v) ∷ m) = let rest = remove k m in if j == k then rest else (j, v) ∷ rest

  unfoldable pub retain : (ℕ → V → Bool) → List (ℕ × V) → List (ℕ × V)
  retain p [] = []
  retain p ((j, v) ∷ m) = let rest = retain p m in if p j v then (j, v) ∷ rest else rest

  -- The keys rise, from the bound on.
  abbrev pub Above : ℕ → List (ℕ × V) → Type 0
  Above n [] = Unit
  Above n ((k, v) ∷ m) = (n ≤ k) × Above (suc k) m

  -- Every key is below the bound.
  abbrev pub Below : ℕ → List (ℕ × V) → Type 0
  Below n [] = Unit
  Below n ((k, v) ∷ m) = (k < n) × Below n m

module _ {ℓ} {V : Type ℓ} where
  pub get-insert :
      (k j : ℕ) (v : V) (m : List (ℕ × V))
      → get j (insert k v m) ≡ (if k == j then some v else get j m)
  unfolding get insert
  get-insert k j v [] = refl
  get-insert k j v ((i, w) ∷ m) = ground (arith, get-insert k j v m)

  pub get-remove :
      (k j : ℕ) (m : List (ℕ × V)) → get j (remove k m) ≡ (if k == j then none else get j m)
  unfolding get remove
  get-remove k j [] = ground arith
  get-remove k j ((i, w) ∷ m) = ground (arith, get-remove k j m)

  pub Above-mono : {a b : ℕ} (m : List (ℕ × V)) → a ≤ b → Above b m → Above a m
  Above-mono [] h t = tt
  Above-mono ((k, v) ∷ m) h t = (omega arith, t.1)

  pub Below-mono : {a b : ℕ} (m : List (ℕ × V)) → a ≤ b → Below a m → Below b m
  Below-mono [] h t = tt
  Below-mono ((k, v) ∷ m) h t = (omega arith, Below-mono m h t.1)

  -- A map whose keys start higher holds nothing below.
  pub get_below : (n k : ℕ) (m : List (ℕ × V)) → Above n m → k < n → get k m ≡ none
  unfolding get
  get_below n k [] h lt = refl
  get_below n k ((j, v) ∷ m) h lt = ground (arith, get_below (suc j) k m h.1)

  pub get_above : (n k : ℕ) (m : List (ℕ × V)) → Below n m → n ≤ k → get k m ≡ none
  unfolding get
  get_above n k [] h le = refl
  get_above n k ((j, v) ∷ m) h le = ground (arith, get_above n k m h.1)

  pub get-retain_not :
      (p : ℕ → V → Bool) (n k : ℕ) (m : List (ℕ × V))
      → Above n m
      → k < n
      → get k (retain p m) ≡ none
  unfolding get retain
  get-retain_not p n k [] h lt = refl
  get-retain_not p n k ((j, v) ∷ m) h lt = ground (arith, get-retain_not p (suc j) k m h.1)

  -- What `retain` keeps, key by key.
  pub get-retain :
      (p : ℕ → V → Bool) (n k : ℕ) (m : List (ℕ × V))
      → Above n m
      → get k (retain p m)
        ≡ elim (get k m) [ none ↦ none | some v ↦ if p k v then some v else none ]
  unfolding get retain
  get-retain p n k [] h = refl
  get-retain p n k ((j, v) ∷ m) h =
      ground (arith, get-retain p (suc j) k m h.1, get-retain_not p (suc j) k m h.1)

  pub insert-Above :
      (n k : ℕ) (v : V) (m : List (ℕ × V)) → n ≤ k → Above n m → Above n (insert k v m)
  unfolding insert
  insert-Above n k v [] le h = (le, tt)
  insert-Above n k v ((j, w) ∷ m) le h =
      ground (arith, insert-Above (suc j) k v m, Above-mono {a = suc k} {b = suc j} m)

  pub insert-Below :
      (n k : ℕ) (v : V) (m : List (ℕ × V)) → k < n → Below n m → Below n (insert k v m)
  unfolding insert
  insert-Below n k v [] lt h = (lt, tt)
  insert-Below n k v ((j, w) ∷ m) lt h = ground (arith, insert-Below n k v m lt h.1)

  pub remove-Above : (n k : ℕ) (m : List (ℕ × V)) → Above n m → Above n (remove k m)
  unfolding remove
  remove-Above n k [] h = tt
  remove-Above n k ((j, w) ∷ m) h =
      ground (arith, remove-Above (suc j) k m h.1, Above-mono {a = n} {b = suc j} (remove k m))

  pub remove-Below : (n k : ℕ) (m : List (ℕ × V)) → Below n m → Below n (remove k m)
  unfolding remove
  remove-Below n k [] h = tt
  remove-Below n k ((j, w) ∷ m) h = ground (arith, remove-Below n k m h.1)

  pub retain-Above :
      (p : ℕ → V → Bool) (n : ℕ) (m : List (ℕ × V)) → Above n m → Above n (retain p m)
  unfolding retain
  retain-Above p n [] h = tt
  retain-Above p n ((j, w) ∷ m) h =
      ground (arith, retain-Above p (suc j) m h.1, Above-mono {a = n} {b = suc j} (retain p m))

  pub retain-Below :
      (p : ℕ → V → Bool) (n : ℕ) (m : List (ℕ × V)) → Below n m → Below n (retain p m)
  unfolding retain
  retain-Below p n [] h = tt
  retain-Below p n ((j, w) ∷ m) h = ground (arith, retain-Below p n m h.1)

  pub length-retain-le : (p : ℕ → V → Bool) (m : List (ℕ × V)) → length (retain p m) ≤ length m
  unfolding retain
  length-retain-le p [] = omega arith
  length-retain-le p ((j, w) ∷ m) = ground (arith, length-retain-le p m)

  pub length-insert-le : (k : ℕ) (v : V) (m : List (ℕ × V)) → length (insert k v m) ≤ length m + 1
  unfolding insert
  length-insert-le k v [] = omega arith
  length-insert-le k v ((j, w) ∷ m) = ground (arith, length-insert-le k v m)

  pub length-insert_present :
      (n k : ℕ) (v w : V) (m : List (ℕ × V))
      → Above n m
      → get k m ≡ some v
      → length (insert k w m) ≡ length m
  unfolding get insert
  length-insert_present n k v w [] h e = absurd (ground arith)
  length-insert_present n k v w ((j, u) ∷ m) h e =
      ground (arith, length-insert_present (suc j) k v w m h.1, get_below (suc j) k m h.1)

  pub remove_absent : (k : ℕ) (m : List (ℕ × V)) → get k m ≡ none → remove k m ≡ m
  unfolding remove get
  remove_absent k [] h = refl
  remove_absent k ((j, w) ∷ m) h = ground (arith, remove_absent k m)

  pub length-remove-le : (k : ℕ) (m : List (ℕ × V)) → length (remove k m) ≤ length m
  unfolding remove
  length-remove-le k [] = omega arith
  length-remove-le k ((j, w) ∷ m) = ground (arith, length-remove-le k m)

  pub length-remove-lt :
      (k : ℕ) (v : V) (m : List (ℕ × V)) → get k m ≡ some v → length (remove k m) < length m
  unfolding remove get
  length-remove-lt k v [] h = cc
  length-remove-lt k v ((j, w) ∷ m) h = ground (arith, length-remove-lt k v m, length-remove-le k m)

  pub contains_key-get :
      (k : ℕ) (v : V) (m : List (ℕ × V)) → get k m ≡ some v → contains_key k m ≡ true
  unfolding contains_key get
  contains_key-get k v [] h = cc
  contains_key-get k v ((j, w) ∷ m) h = ground (arith, contains_key-get k v m)

  pub contains_key-none : (k : ℕ) (m : List (ℕ × V)) → get k m ≡ none → contains_key k m ≡ false
  unfolding contains_key get
  contains_key-none k [] h = refl
  contains_key-none k ((j, w) ∷ m) h = ground (arith, contains_key-none k m)

  pub contains_key-insert :
      (k j : ℕ) (v : V) (m : List (ℕ × V))
      → contains_key j (insert k v m) ≡ (if k == j then true else contains_key j m)
  unfolding contains_key insert
  contains_key-insert k j v [] = refl
  contains_key-insert k j v ((i, w) ∷ m) = ground (arith, contains_key-insert k j v m)

  pub contains_key-remove :
      (k j : ℕ) (m : List (ℕ × V))
      → contains_key j (remove k m) ≡ (if k == j then false else contains_key j m)
  unfolding contains_key remove
  contains_key-remove k j [] = ground arith
  contains_key-remove k j ((i, w) ∷ m) = ground (arith, contains_key-remove k j m)

  pub contains_key_below :
      (n k : ℕ) (m : List (ℕ × V)) → Above n m → k < n → contains_key k m ≡ false
  unfolding contains_key
  contains_key_below n k [] h lt = refl
  contains_key_below n k ((j, v) ∷ m) h lt = ground (arith, contains_key_below (suc j) k m h.1)

  pub contains_key_above :
      (n k : ℕ) (m : List (ℕ × V)) → Below n m → n ≤ k → contains_key k m ≡ false
  unfolding contains_key
  contains_key_above n k [] h le = refl
  contains_key_above n k ((j, v) ∷ m) h le = ground (arith, contains_key_above n k m h.1)

  -- Without its least key a map starts one higher.
  pub Above-of_get-none : (n : ℕ) (m : List (ℕ × V)) → Above n m → get n m ≡ none → Above (suc n) m
  unfolding get
  Above-of_get-none n [] h e = tt
  Above-of_get-none n ((j, v) ∷ m) h e = (ground arith, h.1)

  pub remove-Above-suc : (n : ℕ) (m : List (ℕ × V)) → Above n m → Above (suc n) (remove n m)
  unfolding remove
  remove-Above-suc n [] h = tt
  remove-Above-suc n ((j, v) ∷ m) h =
      ground
        (arith, remove_absent n m, get_below (suc j) n m h.1, Above-mono {a = suc n} {b = suc j} m)

  pub get-lt : (n k : ℕ) (v : V) (m : List (ℕ × V)) → Below n m → get k m ≡ some v → k < n
  unfolding get
  get-lt n k v [] h e = cc
  get-lt n k v ((j, w) ∷ m) h e = ground (arith, get-lt n k v m h.1)

  pub contains_key-eq :
      (k : ℕ) (m : List (ℕ × V))
      → contains_key k m ≡ elim (get k m) [ none ↦ false | some _ ↦ true ]
  unfolding contains_key get
  contains_key-eq k [] = refl
  contains_key-eq k ((j, w) ∷ m) = ground (arith, contains_key-eq k m)
