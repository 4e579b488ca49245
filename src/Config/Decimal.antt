-- ===== src/Config/Decimal.antt =====
-- src/config.rs: numbers in decimal, as `parse::<u16>` reads them, and the parts of a text.
use rathole_ng.Prelude.{
  ℕ, zero, suc, ◌∙◌, length-append, ◌+◌, ◌-◌, ◌*◌, ◌/◌, ◌%◌, ◌^◌, ◌≤◌, ◌<◌, ◌≡◌, refl, ap, false,
  none, some, [], ◌∷◌, ◌++◌, arith, ltb, ◌==◌, if◌then◌else◌, length, inl, inr, Bool-cases,
}
use native.Mathlib.Nat.{pow-suc}
use rathole_ng.Config.{Text}
use rathole_ng.Config.Ports.{
  is_whitespace, trim_start, trim_end, trim, split, split_once, parse_digits, parse_u16,
}

-- The digits of a number, in at most `fuel` places.
unfoldable pub show_digits : ℕ → ℕ → Text
show_digits zero n = []
show_digits (suc fuel) n =
    let front = show_digits fuel (n / 10) in
    if ltb n 10 then (48 + n) ∷ [] else front ++ (48 + n % 10) ∷ []

abbrev pub AreDigits : Text → Type 0
AreDigits [] = Unit
AreDigits (c ∷ cs) = (48 ≤ c) × (c ≤ 57) × AreDigits cs

AreDigits-append : (a b : Text) → AreDigits a → AreDigits b → AreDigits (a ++ b)
AreDigits-append [] b h k = k
AreDigits-append (c ∷ a) b h k = (h.0, h.1, AreDigits-append a b h.2 k)

pub show_digits-AreDigits : (fuel n : ℕ) → AreDigits (show_digits fuel n)
unfolding show_digits
show_digits-AreDigits zero n = tt
show_digits-AreDigits (suc fuel) n = elim (Bool-cases (ltb n 10)) [
  | inl e ↦ rw e (omega arith, ground arith, tt)
  | inr e ↦
      let last : 48 + n % 10 ≤ 57 = omega arith in
      rw e (
        AreDigits-append (show_digits fuel (n / 10)) ((48 + n % 10) ∷ [])
          (show_digits-AreDigits fuel (n / 10)) (omega arith, last, tt))
]

parse_digits-append :
    (n : ℕ) (a b : Text)
    → parse_digits n (a ++ b) ≡ elim (parse_digits n a) [ none ↦ none | some m ↦ parse_digits m b ]
unfolding parse_digits
parse_digits-append n [] b = refl
parse_digits-append n (c ∷ a) b = ground (arith, parse_digits-append (n * 10 + (c - 48)) a b)

parse_digit :
    (n d v : ℕ) → d < 10 → v ≡ n * 10 + d → v < 65_536 → parse_digits n ((48 + d) ∷ []) ≡ some v
unfolding parse_digits
parse_digit n d v h e lt = let value : 48 + d - 48 ≡ d = omega arith in ground arith

pub parse_digits-show_digits :
    (fuel n : ℕ) → n < 10 ^ fuel → n < 65_536 → parse_digits 0 (show_digits fuel n) ≡ some n
unfolding show_digits parse_digits
parse_digits-show_digits zero n h lt = ap some (omega arith)
parse_digits-show_digits (suc fuel) n h lt = elim (Bool-cases (ltb n 10)) [
  | inl e ↦ rw e (parse_digit 0 n n (ground arith) (omega arith) lt)
  | inr e ↦
      let small : n / 10 < 10 ^ fuel = omega (arith, pow-suc 10 fuel) in
      rw
        (
          e,
          parse_digits-append 0 (show_digits fuel (n / 10)) ((48 + n % 10) ∷ []),
          parse_digits-show_digits fuel (n / 10) small (omega arith),
        )
        (parse_digit (n / 10) (n % 10) n (omega arith) (omega arith) lt)
]

-- A sign is no digit.
parse_u16_digits : (s : Text) → AreDigits s → 1 ≤ length s → parse_u16 s ≡ parse_digits 0 s
unfolding parse_u16
parse_u16_digits [] h one = absurd (omega arith)
parse_u16_digits (c ∷ []) h one = ground arith
parse_u16_digits (c ∷ d ∷ s) h one = ground arith

pub show_digits-nonempty : (fuel n : ℕ) → 1 ≤ length (show_digits (suc fuel) n)
unfolding show_digits
show_digits-nonempty fuel n = elim (Bool-cases (ltb n 10)) [
  | inl e ↦ rw e (omega arith)
  | inr e ↦ rw e (omega (arith, length-append (show_digits fuel (n / 10)) ((48 + n % 10) ∷ [])))
]

-- A number in decimal, for a number of 16 bits.
abbrev pub decimal : ℕ → Text
decimal n = show_digits 5 n

pub parse_u16-decimal : (n : ℕ) → n < 65_536 → parse_u16 (decimal n) ≡ some n
parse_u16-decimal n lt =
    parse_u16_digits (decimal n) (show_digits-AreDigits 5 n) (show_digits-nonempty 4 n)
    ∙ parse_digits-show_digits 5 n (omega arith) lt

-- Neither white space nor one of the separators.
abbrev pub IsPlain : ℕ → Text → Type 0
IsPlain sep [] = Unit
IsPlain sep (c ∷ cs) = ((c == sep) ≡ false) × IsPlain sep cs

pub AreDigits-IsPlain : (sep : ℕ) (s : Text) → sep < 48 → AreDigits s → IsPlain sep s
AreDigits-IsPlain sep [] lt h = tt
AreDigits-IsPlain sep (c ∷ s) lt h = (ground arith, AreDigits-IsPlain sep s lt h.2)

pub IsPlain-append : (sep : ℕ) (a b : Text) → IsPlain sep a → IsPlain sep b → IsPlain sep (a ++ b)
IsPlain-append sep [] b h k = k
IsPlain-append sep (c ∷ a) b h k = (h.0, IsPlain-append sep a b h.1 k)

-- Digits and minus signs, which are no white space.
abbrev pub AreMarks : Text → Type 0
AreMarks [] = Unit
AreMarks (c ∷ cs) = (45 ≤ c) × (c ≤ 57) × AreMarks cs

pub AreMarks-append : (a b : Text) → AreMarks a → AreMarks b → AreMarks (a ++ b)
AreMarks-append [] b h k = k
AreMarks-append (c ∷ a) b h k = (h.0, h.1, AreMarks-append a b h.2 k)

pub AreMarks-of_digits : (s : Text) → AreDigits s → AreMarks s
AreMarks-of_digits [] h = tt
AreMarks-of_digits (c ∷ s) h = (omega (arith, h.0), h.1, AreMarks-of_digits s h.2)

mark_stays : (c : ℕ) → 45 ≤ c → c ≤ 57 → is_whitespace c ≡ false
unfolding is_whitespace
mark_stays c h k = ground arith

trim_end_marks : (s : Text) → AreMarks s → trim_end s ≡ s
unfolding trim_end
trim_end_marks [] h = refl
trim_end_marks (c ∷ []) h = rw (mark_stays c h.0 h.1) refl
trim_end_marks (c ∷ d ∷ s) h = rw (trim_end_marks (d ∷ s) h.2) refl

trim_start_marks : (s : Text) → AreMarks s → trim_start s ≡ s
unfolding trim_start
trim_start_marks [] h = refl
trim_start_marks (c ∷ s) h = rw (mark_stays c h.0 h.1) refl

pub trim_marks : (s : Text) → AreMarks s → trim s ≡ s
unfolding trim
trim_marks s h = rw (trim_start_marks s h) (trim_end_marks s h)

pub split_once_plain : (sep : ℕ) (a : Text) → IsPlain sep a → split_once sep a ≡ none
unfolding split_once
split_once_plain sep [] h = refl
split_once_plain sep (c ∷ a) h = rw (h.0, split_once_plain sep a h.1) refl

pub split_once-append :
    (sep : ℕ) (a b : Text) → IsPlain sep a → split_once sep (a ++ sep ∷ b) ≡ some (a, b)
unfolding split_once
split_once-append sep [] b h = ground arith
split_once-append sep (c ∷ a) b h = rw (h.0, split_once-append sep a b h.1) refl

pub split_plain : (sep : ℕ) (a : Text) → IsPlain sep a → split sep a ≡ a ∷ []
unfolding split
split_plain sep [] h = refl
split_plain sep (c ∷ a) h = rw (h.0, split_plain sep a h.1) refl

pub split-append :
    (sep : ℕ) (a b : Text) → IsPlain sep a → split sep (a ++ sep ∷ b) ≡ a ∷ split sep b
unfolding split
split-append sep [] b h = ground arith
split-append sep (c ∷ a) b h = rw (h.0, split-append sep a b h.1) refl
