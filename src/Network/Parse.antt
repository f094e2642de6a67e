-- ===== src/Network/Parse.antt =====
-- `parseIpv4` and `parseIpv6` of apps/api/src/settings/network.ts: addresses as texts, and their bytes.
use octopus_job_search.Base.{
  ℕ, ◌+◌, ◌-◌, ◌*◌, ◌/◌, ◌%◌, Bool, false, not, ◌&&◌, ◌||◌, Option, none, some, List, [], ◌∷◌, ◌++◌,
}
use octopus_job_search.Base.Tests.{◌==◌, leb, ltb, if◌then◌else◌}
use octopus_job_search.Base.Lists.{length, drop, every}
use octopus_job_search.Base.Text.{Text, is_blank}

-- `value.split(separator)` for a separator of one character.
abbrev attach_char : ℕ → List Text → List Text
attach_char c [] = (c ∷ []) ∷ []
attach_char c (part ∷ parts) = (c ∷ part) ∷ parts

unfoldable pub split : ℕ → Text → List Text
split sep [] = [] ∷ []
split sep (c ∷ s) = let rest = split sep s in if c == sep then [] ∷ rest else attach_char c rest

-- `text.split('::')`, which takes the separators from the left.
unfoldable pub split_double : Text → List Text
split_double [] = [] ∷ []
split_double (c ∷ []) = (c ∷ []) ∷ []
split_double (c ∷ d ∷ s) =
    let rest = split_double s in
    let shifted = split_double (d ∷ s) in
    if c == 58 && d == 58 then [] ∷ rest else attach_char c shifted

abbrev pub is_digit : ℕ → Bool
is_digit c = leb 48 c && leb c 57

-- `Number.parseInt(part, 10)` of digits.
unfoldable pub decimal_from : ℕ → Text → ℕ
decimal_from n [] = n
decimal_from n (c ∷ s) = decimal_from (10 * n + (c - 48)) s

-- One part of a dotted quad.
unfoldable pub parse_byte : Text → Option ℕ
unfolding decimal_from
parse_byte part =
    if not (leb 1 (length part) && (leb (length part) 3 && every is_digit part))
    then none
    else if ltb 255 (decimal_from 0 part)
    then none
    else some (decimal_from 0 part)

abbrev pub cons_opt {ℓ} : {A : Type ℓ} → Option A → Option (List A) → Option (List A)
cons_opt none rest = none
cons_opt (some a) none = none
cons_opt (some a) (some rest) = some (a ∷ rest)

unfoldable pub parse_bytes : List Text → Option (List ℕ)
unfolding parse_byte
parse_bytes [] = some []
parse_bytes (part ∷ parts) = cons_opt (parse_byte part) (parse_bytes parts)

unfoldable pub parse_ipv4 : Text → Option (List ℕ)
unfolding split parse_bytes
parse_ipv4 value = if not (length (split 46 value) == 4) then none else parse_bytes (split 46 value)

-- The value of a hexadecimal digit.
unfoldable pub hex_digit : ℕ → Option ℕ
hex_digit c =
    if is_digit c
    then some (c - 48)
    else if leb 97 c && leb c 102
    then some (c - 87)
    else if leb 65 c && leb c 70
    then some (c - 55)
    else none

unfoldable pub hex_from : ℕ → Text → Option ℕ
unfolding hex_digit
hex_from n [] = some n
hex_from n (c ∷ s) = elim (hex_digit c) [ none ↦ none | some d ↦ hex_from (16 * n + d) s ]

-- One group of an IPv6 address, as its two bytes.
unfoldable pub parse_group : Text → Option (List ℕ)
unfolding hex_from
parse_group part =
    if not (leb 1 (length part) && leb (length part) 4) then none else elim (hex_from 0 part) [
      | none ↦ none
      | some word ↦ some ((word / 256) % 256 ∷ word % 256 ∷ [])
    ]

abbrev append_opt : Option (List ℕ) → Option (List ℕ) → Option (List ℕ)
append_opt none rest = none
append_opt (some a) none = none
append_opt (some a) (some b) = some (a ++ b)

unfoldable pub parse_groups : List Text → Option (List ℕ)
unfolding parse_group
parse_groups [] = some []
parse_groups (part ∷ parts) = append_opt (parse_group part) (parse_groups parts)

-- `toGroups(part)`, flattened.
unfoldable pub to_groups : Text → Option (List ℕ)
unfolding split parse_groups
to_groups part = if is_blank part then some [] else parse_groups (split 58 part)

-- `text.endsWith(']')`.
abbrev pub ends_with : ℕ → Text → Bool
ends_with c [] = false
ends_with c (d ∷ []) = d == c
ends_with c (d ∷ e ∷ s) = ends_with c (e ∷ s)

abbrev pub starts_with : ℕ → Text → Bool
starts_with c [] = false
starts_with c (d ∷ s) = d == c

-- `text.slice(0, -1)`.
abbrev pub but_last : Text → Text
but_last [] = []
but_last (c ∷ []) = []
but_last (c ∷ d ∷ s) = c ∷ but_last (d ∷ s)

-- Brackets around the whole text, taken off.
unfoldable pub strip_brackets : Text → Text
strip_brackets text =
    if starts_with 91 text && ends_with 93 text then but_last (drop 1 text) else text

-- The text before the first `%`.
unfoldable pub before_zone : Text → Text
before_zone [] = []
before_zone (c ∷ s) = let rest = before_zone s in if c == 37 then [] else c ∷ rest

-- The text up to and with its last colon, and what follows it; nothing where there is no colon.
unfoldable pub at_last_colon : Text → Option (Text × Text)
at_last_colon [] = none
at_last_colon (c ∷ s) =
    let later = at_last_colon s in
    elim later [
      | some cut ↦ some (c ∷ cut.0, cut.1)
      | none ↦ if c == 58 then some (c ∷ [], s) else none
    ]

-- `toString(16)` of a number of at most four digits.
abbrev pub hex_char : ℕ → ℕ
hex_char d = if ltb d 10 then 48 + d else 87 + d

unfoldable pub to_hex : ℕ → Text
to_hex n =
    if ltb n 16
    then hex_char n ∷ []
    else if ltb n 256
    then hex_char (n / 16) ∷ hex_char (n % 16) ∷ []
    else if ltb n 4096
    then hex_char (n / 256) ∷ hex_char ((n / 16) % 16) ∷ hex_char (n % 16) ∷ []
    else hex_char (n / 4096)
      ∷ hex_char ((n / 256) % 16)
      ∷ hex_char ((n / 16) % 16)
      ∷ hex_char (n % 16)
      ∷ []

-- The two groups that a trailing dotted quad stands for.
abbrev pub quad_groups : List ℕ → Text
quad_groups (a ∷ b ∷ c ∷ d ∷ rest) = to_hex (a * 256 + b) ++ (58 ∷ to_hex (c * 256 + d))
quad_groups _ = []

abbrev has_dot : Text → Bool
has_dot [] = false
has_dot (c ∷ s) = c == 46 || has_dot s

-- A trailing dotted quad, rewritten; there is none where no `.` follows the last colon.
unfoldable pub expand_quad : Text → Option Text
unfolding at_last_colon parse_ipv4 to_hex
expand_quad text = elim (at_last_colon text) [
  | none ↦ some text
  | some cut ↦
      if not (has_dot cut.1)
      then some text
      else elim (parse_ipv4 cut.1) [ none ↦ none | some v4 ↦ some (cut.0 ++ quad_groups v4) ]
]

unfoldable pub zeros : ℕ → List ℕ
zeros ℕ.zero = []
zeros (ℕ.suc n) = 0 ∷ zeros n

-- The bytes of the groups before `::` and after it, filled up to sixteen.
unfoldable pub fill_up : List ℕ → List ℕ → Option (List ℕ)
unfolding zeros
fill_up head rest =
    if ltb 16 (length head + length rest)
    then none
    else some (head ++ (zeros (16 - length head - length rest) ++ rest))

abbrev whole : Option (List ℕ) → Option (List ℕ)
whole none = none
whole (some head) = if length head == 16 then some head else none

abbrev halves_of : Option (List ℕ) → Option (List ℕ) → Option (List ℕ)
halves_of none rest = none
halves_of (some head) none = none
halves_of (some head) (some rest) = fill_up head rest

unfoldable pub parse_halves : List Text → Option (List ℕ)
unfolding to_groups
parse_halves [] = whole (some [])
parse_halves (head ∷ []) = whole (to_groups head)
parse_halves (head ∷ rest ∷ []) = halves_of (to_groups head) (to_groups rest)
parse_halves (head ∷ rest ∷ more ∷ parts) = none

unfoldable pub parse_ipv6 : Text → Option (List ℕ)
unfolding strip_brackets before_zone expand_quad split_double parse_halves
parse_ipv6 value = elim (expand_quad (before_zone (strip_brackets value))) [
  | none ↦ none
  | some text ↦ parse_halves (split_double text)
]
