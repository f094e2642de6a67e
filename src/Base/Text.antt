-- ===== src/Base/Text.antt =====
-- Texts as the lists of their UTF-16 code units, with the operations of JavaScript's strings.
use Prim.Native.Char.{code}
use Prim.Native.String.{String}
use Prim.Native.Nat.{ℕ}
use mathlib.Core.Path.{◌≡◌, refl}
use mathlib.Core.Logic.{◌↔◌}
use mathlib.Core.Bool.{Bool, true, false, ◌||◌, ◌&&◌}
use mathlib.Core.List.{List, [], ◌∷◌, ◌++◌, reverse}
use native.Mathlib.Omega.{arith}
use octopus_job_search.Base.Tests.{if◌then◌else◌, ◌==◌, leb, ltb}

abbrev pub Text : Type 0
Text = List ℕ

-- The code units of a literal in ASCII.
abbrev pub codes : String → Text
codes String.[] = []
codes (String.◌∷◌ c s) = code c ∷ codes s

-- `===` on two strings.
unfoldable pub text_eq : Text → Text → Bool
text_eq [] [] = true
text_eq [] (b ∷ v) = false
text_eq (a ∷ u) [] = false
text_eq (a ∷ u) (b ∷ v) = a == b && text_eq u v

pub text_eq_iff : (a b : Text) → (text_eq a b ≡ true) ↔ (a ≡ b)
unfolding text_eq
text_eq_iff [] [] = ((λ _. refl), (λ _. refl))
text_eq_iff [] (b ∷ v) = ((λ h. cc), (λ h. cc))
text_eq_iff (a ∷ u) [] = ((λ h. cc), (λ h. cc))
text_eq_iff (a ∷ u) (b ∷ v) =
    ((λ h. ground (arith, text_eq_iff u v)), (λ h. ground (arith, text_eq_iff u v)))

pub text_eq-sym : (a b : Text) → text_eq a b ≡ text_eq b a
unfolding text_eq
text_eq-sym [] [] = refl
text_eq-sym [] (b ∷ v) = refl
text_eq-sym (a ∷ u) [] = refl
text_eq-sym (a ∷ u) (b ∷ v) = ground (arith, text_eq-sym u v)

-- `<` on two strings: by code units, a proper prefix first.
unfoldable pub text_lt : Text → Text → Bool
text_lt u [] = false
text_lt [] (b ∷ v) = true
text_lt (a ∷ u) (b ∷ v) = ltb a b || (a == b && text_lt u v)

pub text_lt_trans : (a b c : Text) → text_lt a b ≡ true → text_lt b c ≡ true → text_lt a c ≡ true
unfolding text_lt
text_lt_trans a b [] h k = cc
text_lt_trans a [] (z ∷ c) h k = cc
text_lt_trans [] (y ∷ b) (z ∷ c) h k = refl
text_lt_trans (x ∷ a) (y ∷ b) (z ∷ c) h k = ground (arith, text_lt_trans a b c)

pub text_lt_irrefl : (a : Text) → text_lt a a ≡ false
unfolding text_lt
text_lt_irrefl [] = refl
text_lt_irrefl (x ∷ a) = ground (arith, text_lt_irrefl a)

-- Two texts of which neither is the smaller are the same text.
pub text_lt_total : (a b : Text) → text_lt a b ≡ false → text_lt b a ≡ false → a ≡ b
unfolding text_lt
text_lt_total [] [] h k = refl
text_lt_total [] (y ∷ b) h k = cc
text_lt_total (x ∷ a) [] h k = cc
text_lt_total (x ∷ a) (y ∷ b) h k = ground (arith, text_lt_total a b)

-- The white space that `trim` and `\s` know.
unfoldable pub is_space : ℕ → Bool
is_space c =
    (leb 9 c && leb c 13)
    || c == 32
    || c == 0xa0
    || c == 0x1680
    || (leb 0x2000 c && leb c 0x200a)
    || c == 0x2028
    || c == 0x2029
    || c == 0x202f
    || c == 0x205f
    || c == 0x3000
    || c == 0xfeff

unfoldable pub trim_start : Text → Text
trim_start [] = []
trim_start (c ∷ s) = let rest = trim_start s in if is_space c then rest else c ∷ s

unfoldable pub trim_end : Text → Text
unfolding trim_start
trim_end s = reverse (trim_start (reverse s))

unfoldable pub trim : Text → Text
unfolding trim_end trim_start
trim s = trim_end (trim_start s)

unfoldable pub is_prefix : Text → Text → Bool
is_prefix [] t = true
is_prefix (c ∷ s) [] = false
is_prefix (c ∷ s) (d ∷ t) = c == d && is_prefix s t

-- `t.includes(s)`.
unfoldable pub includes : Text → Text → Bool
unfolding is_prefix
includes [] s = is_prefix s []
includes (d ∷ t) s = is_prefix s (d ∷ t) || includes t s

-- `parts.join(separator)`.
unfoldable pub join : Text → List Text → Text
join sep [] = []
join sep (p ∷ []) = p
join sep (p ∷ q ∷ ps) = p ++ (sep ++ join sep (q ∷ ps))

abbrev pub is_blank : Text → Bool
is_blank [] = true
is_blank (c ∷ s) = false

pub text_eq-blank : (k g : Text) → is_blank k ≡ false → is_blank g ≡ true → text_eq k g ≡ false
unfolding text_eq
text_eq-blank [] g h e = cc
text_eq-blank (c ∷ k) [] h e = refl
text_eq-blank (c ∷ k) (d ∷ g) h e = cc
