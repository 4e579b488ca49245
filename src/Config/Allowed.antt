-- ===== src/Config/Allowed.antt =====
-- What a list of ports that is written as the documentation has it allows.
use rathole_ng.Prelude.{
  ℕ, ◌<◌, ◌≡◌, refl, ◌∙◌, sym, Bool, false, ◌&&◌, ◌||◌, List, [], ◌∷◌, ◌++◌, arith, leb, ◌==◌,
  if_neg, length, append-nil, append_assoc,
}
use rathole_ng.Config.{Text, text_discrete}
use rathole_ng.Config.Ports.{trim, split, part_allows, any_allows, is_port_allowed}
use rathole_ng.Config.Decimal.{
  decimal, show_digits-AreDigits, show_digits-nonempty, AreDigits, AreDigits-IsPlain,
  parse_u16-decimal, IsPlain, IsPlain-append, AreMarks, AreMarks-append, AreMarks-of_digits,
  trim_marks, split_once_plain, split_once-append, split_plain, split-append,
}

-- One port, or all from the first to the last.
pub data PortRange : Type 0 where
  single : ℕ → PortRange
  between : ℕ → ℕ → PortRange

abbrev pub IsRange : PortRange → Type 0
IsRange (PortRange.single p) = p < 65_536
IsRange (PortRange.between s e) = (s < 65_536) × (e < 65_536)

abbrev pub AreRanges : List PortRange → Type 0
AreRanges [] = Unit
AreRanges (r ∷ rs) = IsRange r × AreRanges rs

-- "22" and "8000-8010"
unfoldable pub show_range : PortRange → Text
show_range (PortRange.single p) = decimal p
show_range (PortRange.between s e) = decimal s ++ 45 ∷ decimal e

-- The ranges with commas between them.
unfoldable pub show_ranges : PortRange → List PortRange → Text
show_ranges r [] = show_range r
show_ranges r (q ∷ rs) = show_range r ++ 44 ∷ show_ranges q rs

unfoldable pub holds : ℕ → PortRange → Bool
holds port (PortRange.single p) = p == port
holds port (PortRange.between s e) = leb s port && leb port e

unfoldable pub some_holds : ℕ → List PortRange → Bool
some_holds port [] = false
some_holds port (r ∷ rs) = holds port r || some_holds port rs

decimal-AreMarks : (n : ℕ) → AreMarks (decimal n)
decimal-AreMarks n = AreMarks-of_digits (decimal n) (show_digits-AreDigits 5 n)

decimal-IsPlain : (sep n : ℕ) → sep < 48 → IsPlain sep (decimal n)
decimal-IsPlain sep n lt = AreDigits-IsPlain sep (decimal n) lt (show_digits-AreDigits 5 n)

show_range-AreMarks : (r : PortRange) → AreMarks (show_range r)
unfolding show_range
show_range-AreMarks (PortRange.single p) = decimal-AreMarks p
show_range-AreMarks (PortRange.between s e) =
    AreMarks-append (decimal s) (45 ∷ decimal e) (decimal-AreMarks s)
      (omega arith, omega arith, decimal-AreMarks e)

show_range-IsPlain : (r : PortRange) → IsPlain 44 (show_range r)
unfolding show_range
show_range-IsPlain (PortRange.single p) = decimal-IsPlain 44 p (omega arith)
show_range-IsPlain (PortRange.between s e) =
    IsPlain-append 44 (decimal s) (45 ∷ decimal e) (decimal-IsPlain 44 s (omega arith))
      (refl, decimal-IsPlain 44 e (omega arith))

part_allows-show_range :
    (port : ℕ) (r : PortRange) → IsRange r → part_allows port (show_range r) ≡ holds port r
unfolding part_allows holds show_range
part_allows-show_range port (PortRange.single p) h =
    let one = trim_marks (decimal p) (decimal-AreMarks p) in
    let shown : trim (show_range (PortRange.single p)) ≡ decimal p = one in
    rw
      (
        part_allows,
        one,
        split_once_plain 45 (decimal p) (decimal-IsPlain 45 p (omega arith)),
        shown,
        parse_u16-decimal p h,
      )
      refl
part_allows-show_range port (PortRange.between s e) h =
    let all =
      trim_marks (decimal s ++ 45 ∷ decimal e) (show_range-AreMarks (PortRange.between s e)) in
    rw
      (
        part_allows,
        all,
        split_once-append 45 (decimal s) (decimal e) (decimal-IsPlain 45 s (omega arith)),
        trim_marks (decimal s) (decimal-AreMarks s),
        trim_marks (decimal e) (decimal-AreMarks e),
        parse_u16-decimal s h.0,
        parse_u16-decimal e h.1,
      )
      refl

any_allows-show_ranges :
    (port : ℕ) (r : PortRange) (rs : List PortRange)
    → AreRanges (r ∷ rs)
    → any_allows port (split 44 (show_ranges r rs)) ≡ some_holds port (r ∷ rs)
unfolding any_allows some_holds show_ranges
any_allows-show_ranges port r [] h =
    rw
      (
        split_plain 44 (show_range r) (show_range-IsPlain r),
        any_allows,
        part_allows-show_range port r h.0,
      )
      refl
any_allows-show_ranges port r (q ∷ rs) h =
    rw
      (
        split-append 44 (show_range r) (show_ranges q rs) (show_range-IsPlain r),
        any_allows,
        part_allows-show_range port r h.0,
        any_allows-show_ranges port q rs h.1,
      )
      refl

digit_first : (s t : Text) → AreDigits s → (s ++ t ≡ 42 ∷ []) → length s ≡ 0
digit_first [] t h e = refl
digit_first (c ∷ s) t h e = absurd (ground arith)

no_star : (r : PortRange) (rs : List PortRange) → ¬ (show_ranges r rs ≡ 42 ∷ [])
unfolding show_ranges show_range
no_star (PortRange.single p) [] e =
    let d = show_digits-AreDigits 5 p in
    let one = show_digits-nonempty 4 p in
    let z = digit_first (decimal p) [] d (append-nil (decimal p) ∙ e) in omega arith
no_star (PortRange.single p) (q ∷ rs) e =
    let one = show_digits-nonempty 4 p in
    let z = digit_first (decimal p) _ (show_digits-AreDigits 5 p) e in omega arith
no_star (PortRange.between s t) [] e =
    let one = show_digits-nonempty 4 s in
    let z = digit_first (decimal s) _ (show_digits-AreDigits 5 s) e in omega arith
no_star (PortRange.between s t) (q ∷ rs) e =
    let one = show_digits-nonempty 4 s in
    let z =
      digit_first (decimal s) _ (show_digits-AreDigits 5 s)
        (sym (append_assoc (decimal s) (45 ∷ decimal t) _) ∙ e) in
    omega arith

-- A list of ports and of ranges, in decimal and with commas between them, allows exactly the ports
-- that it names, for numbers of 16 bits.
pub is_port_allowed-show_ranges :
    (port : ℕ) (r : PortRange) (rs : List PortRange)
    → AreRanges (r ∷ rs)
    → is_port_allowed (show_ranges r rs) port ≡ some_holds port (r ∷ rs)
unfolding is_port_allowed
is_port_allowed-show_ranges port r rs h =
    if_neg (text_discrete (show_ranges r rs) (42 ∷ [])) (no_star r rs) _ _
    ∙ any_allows-show_ranges port r rs h
