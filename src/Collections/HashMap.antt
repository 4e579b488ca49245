-- ===== src/Collections/HashMap.antt =====
-- `std::collections::HashMap`: an association list whose order stands for the iteration order,
-- which the program may not rely on. Keys are compared by a decision, as by `Eq`.
use rathole_ng.Prelude.{◌≡◌, refl, ite, Bool, true, false, Option, none, some, List, [], ◌∷◌, arith}

module _ {ℓ} {K V : Type ℓ} (dec : Discrete K) where
  unfoldable pub get : K → List (K × V) → Option V
  get k [] = none
  get k ((j, v) ∷ m) = ite (dec j k) (some v) (get k m)

  unfoldable pub contains_key : K → List (K × V) → Bool
  contains_key k m = elim (get k m) [ none ↦ false | some _ ↦ true ]

  unfoldable pub insert : K → V → List (K × V) → List (K × V)
  insert k v [] = (k, v) ∷ []
  insert k v ((j, w) ∷ m) = ite (dec j k) ((k, v) ∷ m) ((j, w) ∷ insert k v m)

  -- The keys of a map are distinct, so that one entry goes at most.
  unfoldable pub remove : K → List (K × V) → List (K × V)
  remove k [] = []
  remove k ((j, v) ∷ m) = let rest = remove k m in ite (dec j k) rest ((j, v) ∷ rest)

  -- The keys are distinct.
  abbrev pub IsMap : List (K × V) → Type ℓ
  IsMap [] = Unit
  IsMap ((k, v) ∷ m) = (get k m ≡ none) × IsMap m

module _ {ℓ} {K V : Type ℓ} (dec : Discrete K) where
  pub get-insert :
      (k j : K) (v : V) (m : List (K × V))
      → get dec j (insert dec k v m) ≡ ite (dec k j) (some v) (get dec j m)
  unfolding get insert
  get-insert k j v [] = refl
  get-insert k j v ((i, w) ∷ m) = ground (arith, get-insert k j v m)

  pub get-remove :
      (k j : K) (m : List (K × V)) → get dec j (remove dec k m) ≡ ite (dec k j) none (get dec j m)
  unfolding get remove
  get-remove k j [] = ground arith
  get-remove k j ((i, w) ∷ m) = ground (arith, get-remove k j m)

  pub insert-IsMap : (k : K) (v : V) (m : List (K × V)) → IsMap dec m → IsMap dec (insert dec k v m)
  unfolding insert get
  insert-IsMap k v [] h = (refl, tt)
  insert-IsMap k v ((i, w) ∷ m) h = ground (arith, insert-IsMap k v m h.1, get-insert k i v m)

  pub remove-IsMap : (k : K) (m : List (K × V)) → IsMap dec m → IsMap dec (remove dec k m)
  unfolding remove get
  remove-IsMap k [] h = tt
  remove-IsMap k ((i, w) ∷ m) h = ground (arith, remove-IsMap k m h.1, get-remove k i m)

  pub get_of_contains_key :
      (k : K) (m : List (K × V)) → contains_key dec k m ≡ true → (v : V) × (get dec k m ≡ some v)
  unfolding contains_key
  get_of_contains_key k m h = ground arith

  pub contains_key_of_get :
      (k : K) (v : V) (m : List (K × V)) → get dec k m ≡ some v → contains_key dec k m ≡ true
  unfolding contains_key
  contains_key_of_get k v m h = ground arith
