-- ===== src/Config/Ports.antt =====
-- src/config.rs: which ports a user may use.
use rathole_ng.Prelude.{
  ℕ, ◌+◌, ◌-◌, ◌*◌, Bool, true, false, ◌&&◌, ◌||◌, Option, none, some, List, [], ◌∷◌, ltb, leb,
  ◌==◌, if◌then◌else◌, ite,
}
use rathole_ng.Config.{Text, text_discrete}

-- `char::is_whitespace`
unfoldable pub is_whitespace : ℕ → Bool
is_whitespace c =
    (leb 9 c && leb c 13)
    || (c == 32)
    || (c == 133)
    || (c == 160)
    || (c == 5760)
    || (leb 8192 c && leb c 8202)
    || (c == 8232)
    || (c == 8233)
    || (c == 8239)
    || (c == 8287)
    || (c == 12288)

-- `str::trim`, from the start and from the end.
unfoldable pub trim_start : Text → Text
trim_start [] = []
trim_start (c ∷ cs) = let rest = trim_start cs in if is_whitespace c then rest else c ∷ cs

unfoldable pub trim_end : Text → Text
trim_end [] = []
trim_end (c ∷ cs) = elim (trim_end cs) [
  | [] ↦ if is_whitespace c then [] else c ∷ []
  | d ∷ ds ↦ c ∷ d ∷ ds
]

unfoldable pub trim : Text → Text
unfolding trim_start trim_end
trim s = trim_end (trim_start s)

-- A character in front of the first of several parts.
abbrev pub in_front : ℕ → List Text → List Text
in_front c [] = (c ∷ []) ∷ []
in_front c (p ∷ ps) = (c ∷ p) ∷ ps

-- `str::split`
unfoldable pub split : ℕ → Text → List Text
split sep [] = [] ∷ []
split sep (c ∷ cs) = let rest = split sep cs in if c == sep then [] ∷ rest else in_front c rest

abbrev pub in_first : ℕ → Option (Text × Text) → Option (Text × Text)
in_first c none = none
in_first c (some (a, b)) = some (c ∷ a, b)

-- `str::split_once`
unfoldable pub split_once : ℕ → Text → Option (Text × Text)
split_once sep [] = none
split_once sep (c ∷ cs) =
    let rest = split_once sep cs in if c == sep then some ([], cs) else in_first c rest

-- The digits of `parse::<u16>`, on the number so far.
unfoldable pub parse_digits : ℕ → Text → Option ℕ
parse_digits n [] = some n
parse_digits n (c ∷ cs) =
    let m = n * 10 + (c - 48) in
    let rest = parse_digits m cs in
    if leb 48 c && leb c 57 then (if ltb m 65_536 then rest else none) else none

-- `parse::<u16>`, which takes a plus sign in front.
unfoldable pub parse_u16 : Text → Option ℕ
parse_u16 [] = none
parse_u16 (c ∷ []) = if c == 43 then none else parse_digits 0 (c ∷ [])
parse_u16 (c ∷ d ∷ cs) = if c == 43 then parse_digits 0 (d ∷ cs) else parse_digits 0 (c ∷ d ∷ cs)

-- `port >= s && port <= e`, where both ends are numbers.
abbrev pub in_range : ℕ → Option ℕ → Option ℕ → Bool
in_range port (some s) (some e) = leb s port && leb port e
in_range port _ _ = false

abbrev pub is_port : ℕ → Option ℕ → Bool
is_port port none = false
is_port port (some p) = p == port

-- One round of the loop.
unfoldable pub part_allows : ℕ → Text → Bool
part_allows port part = elim (split_once 45 (trim part)) [
  | some (start, end) ↦ in_range port (parse_u16 (trim start)) (parse_u16 (trim end))
  | none ↦ is_port port (parse_u16 (trim part))
]

unfoldable pub any_allows : ℕ → List Text → Bool
any_allows port [] = false
any_allows port (part ∷ parts) = part_allows port part || any_allows port parts

unfoldable pub is_port_allowed : Text → ℕ → Bool
is_port_allowed allowed_ports port =
    ite (text_discrete allowed_ports (42 ∷ [])) true (any_allows port (split 44 allowed_ports))
