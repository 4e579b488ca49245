-- ===== src/Watcher/Replay.antt =====
-- Replaying the changes of the services.
use rathole_ng.Prelude.{
  ◌≡◌, refl, true, ◌&&◌, not, Option, none, some, List, [], ◌∷◌, ◌++◌, if◌then◌else◌, arith,
  Option-cases, inl, inr,
}
use rathole_ng.Collections.HashMap
use rathole_ng.Config.{Text, text_discrete}
use rathole_ng.Watcher.{ServiceChange, decides, same_option, deletions, additions, service_changes}

module _ {S : Type 0} (dec : Discrete S) (name_of : S → Text) where
  -- What changes mean for the services of a file, which go by their names: an addition sets the
  -- service of its name, a deletion removes its name.
  unfoldable pub replay : List (ServiceChange S) → List (Text × S) → List (Text × S)
  replay [] m = m
  replay (ServiceChange.add s ∷ cs) m = replay cs (HashMap.insert text_discrete (name_of s) s m)
  replay (ServiceChange.delete name ∷ cs) m = replay cs (HashMap.remove text_discrete name m)

  -- Each service has the name that it stands under, as after the validation.
  abbrev pub AreNamed : List (Text × S) → Type 0
  AreNamed [] = Unit
  AreNamed ((name, s) ∷ m) = (name_of s ≡ name) × AreNamed m

  replay-append :
      (cs ds : List (ServiceChange S)) (m : List (Text × S))
      → replay (cs ++ ds) m ≡ replay ds (replay cs m)
  unfolding replay
  replay-append [] ds m = refl
  replay-append (ServiceChange.add s ∷ cs) ds m = replay-append cs ds _
  replay-append (ServiceChange.delete name ∷ cs) ds m = replay-append cs ds _

  get-replay-deletions :
      (new old m : List (Text × S)) (k : Text)
      → HashMap.get text_discrete k (replay (deletions dec new old) m) ≡ (
          if HashMap.contains_key text_discrete k old
            && not (HashMap.contains_key text_discrete k new)
          then none
          else HashMap.get text_discrete k m)
  unfolding deletions replay HashMap.contains_key HashMap.get
  get-replay-deletions new [] m k = refl
  get-replay-deletions new ((name, s) ∷ old) m k = ground (
    arith,
    get-replay-deletions new old m k,
    get-replay-deletions new old (HashMap.remove text_discrete name m) k,
    HashMap.get-remove text_discrete name k m,
  )

  get-replay-additions :
      (old new m : List (Text × S)) (k : Text)
      → HashMap.IsMap text_discrete new
      → AreNamed new
      → HashMap.get text_discrete k (replay (additions dec old new) m)
        ≡ elim (HashMap.get text_discrete k new) [
          | none ↦ HashMap.get text_discrete k m
          | some c ↦
              if same_option (decides dec) (HashMap.get text_discrete k old) (some c)
              then HashMap.get text_discrete k m
              else some c
        ]
  unfolding additions replay HashMap.get
  get-replay-additions old [] m k d n = refl
  get-replay-additions old ((name, c) ∷ new) m k d n = ground (
    arith,
    get-replay-additions old new m k d.1 n.1,
    get-replay-additions old new (HashMap.insert text_discrete (name_of c) c m) k d.1 n.1,
    HashMap.get-insert text_discrete (name_of c) k c m,
  )

  same_option-some :
      (o : Option S) (c : S) → same_option (decides dec) o (some c) ≡ true → o ≡ some c
  same_option-some none c e = absurd (ground arith)
  same_option-some (some s) c e = ground arith

  -- Replaying the changes on the old services gives the new ones, name by name, if every new
  -- service has the name that it stands under.
  pub replay-service_changes :
      (old new : List (Text × S)) (k : Text)
      → HashMap.IsMap text_discrete new
      → AreNamed new
      → HashMap.get text_discrete k (replay (service_changes dec old new) old)
        ≡ HashMap.get text_discrete k new
  unfolding service_changes HashMap.contains_key
  replay-service_changes old new k d n =
      let kept = replay (deletions dec new old) old in
      rw (replay-append (deletions dec new old) (additions dec old new) old)
        (elim (Option-cases (HashMap.get text_discrete k new)) [
          | inl e ↦
              ground
                (arith, get-replay-additions old new kept k d n, get-replay-deletions new old old k)
          | inr (c, e) ↦ ground (
            arith,
            get-replay-additions old new kept k d n,
            get-replay-deletions new old old k,
            same_option-some (HashMap.get text_discrete k old) c,
          )
        ])
