-- ===== src/Watcher/SameMap.antt =====
-- Maps that compare as equal hold the same services.
use rathole_ng.Prelude.{
  suc, ◌≡◌, refl, true, none, some, List, [], ◌∷◌, length, arith, Option-cases, inl, inr,
}
use rathole_ng.Collections.HashMap
use rathole_ng.Config.{Text, text_discrete}
use rathole_ng.Watcher.{has_entries, same_map}

module _ {S : Type 0} (dec : Discrete S) where
  remove-none :
      (k : Text) (n : List (Text × S))
      → HashMap.get text_discrete k n ≡ none
      → HashMap.remove text_discrete k n ≡ n
  unfolding HashMap.get HashMap.remove
  remove-none k [] e = refl
  remove-none k ((j, s) ∷ n) e = ground (arith, remove-none k n)

  length-remove :
      (k : Text) (s : S) (n : List (Text × S))
      → HashMap.IsMap text_discrete n
      → HashMap.get text_discrete k n ≡ some s
      → suc (length (HashMap.remove text_discrete k n)) ≡ length n
  unfolding HashMap.get HashMap.remove
  length-remove k s [] d e = absurd (ground arith)
  length-remove k s ((j, x) ∷ n) d e = ground (arith, length-remove k s n d.1, remove-none j n d.0)

  has_entries-remove :
      (k : Text) (m n : List (Text × S))
      → HashMap.get text_discrete k m ≡ none
      → has_entries dec m n ≡ true
      → has_entries dec m (HashMap.remove text_discrete k n) ≡ true
  unfolding has_entries HashMap.get
  has_entries-remove k [] n e h = refl
  has_entries-remove k ((j, x) ∷ m) n e h =
      ground (arith, has_entries-remove k m n, HashMap.get-remove text_discrete k j n)

  get-has_entries :
      (m n : List (Text × S)) (k : Text)
      → HashMap.IsMap text_discrete m
      → HashMap.IsMap text_discrete n
      → length m ≡ length n
      → has_entries dec m n ≡ true
      → HashMap.get text_discrete k m ≡ HashMap.get text_discrete k n
  unfolding has_entries HashMap.get
  get-has_entries [] [] k dm dn l h = refl
  get-has_entries [] (x ∷ n) k dm dn l h = absurd (ground arith)
  get-has_entries ((j, x) ∷ m) n k dm dn l h = elim (Option-cases (HashMap.get text_discrete j n)) [
    | inl e ↦ absurd (ground arith)
    | inr (y, e) ↦ ground (
      arith,
      length-remove j y n dn e,
      get-has_entries m (HashMap.remove text_discrete j n) k dm.1
          (HashMap.remove-IsMap text_discrete j n dn),
      has_entries-remove j m n dm.0,
      HashMap.get-remove text_discrete j k n,
    )
  ]

  pub get-same_map :
      (m n : List (Text × S)) (k : Text)
      → HashMap.IsMap text_discrete m
      → HashMap.IsMap text_discrete n
      → same_map dec m n ≡ true
      → HashMap.get text_discrete k m ≡ HashMap.get text_discrete k n
  unfolding same_map
  get-same_map m n k dm dn h = get-has_entries m n k dm dn (ground arith) (ground arith)
