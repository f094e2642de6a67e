-- ===== src/Network/Quads.antt =====
-- Dotted quads: what `parseIpv4` of apps/api/src/settings/network.ts reads back, and what it never
-- gives.
use octopus_job_search.Base.{
  ℕ, ◌+◌, ◌/◌, ◌%◌, ◌<◌, ◌≡◌, refl, subst, true, false, Option, none, some, List, [], ◌∷◌, ◌++◌,
  arith, inl, inr,
}
use octopus_job_search.Base.Tests.{◌==◌, ltb, if◌then◌else◌, Bool-cases}
use octopus_job_search.Base.Lists.{length, every, All}
use octopus_job_search.Base.Text.{Text}
use octopus_job_search.Network.Parse.{
  split, is_digit, decimal_from, parse_byte, parse_bytes, parse_ipv4, cons_opt,
}

-- The decimal digits of a byte.
abbrev pub show_byte : ℕ → Text
show_byte n =
    if ltb n 10
    then (48 + n) ∷ []
    else if ltb n 100
    then (48 + n / 10) ∷ (48 + n % 10) ∷ []
    else (48 + n / 100) ∷ (48 + (n / 10) % 10) ∷ (48 + n % 10) ∷ []

-- The usual form of an address.
abbrev pub show_ipv4 : ℕ → ℕ → ℕ → ℕ → Text
show_ipv4 a b c d =
    show_byte a ++ (46 ∷ (show_byte b ++ (46 ∷ (show_byte c ++ (46 ∷ show_byte d)))))

parse_byte-show : (n : ℕ) → n < 256 → parse_byte (show_byte n) ≡ some n
unfolding parse_byte decimal_from
parse_byte-show n h = ground (arith, h)

all_digits : (n : ℕ) → n < 256 → every is_digit (show_byte n) ≡ true
all_digits n h = ground (arith, h)

-- Digits are not the separator, so they stay in one part.
split-digits :
    (s rest : Text) → every is_digit s ≡ true → split 46 (s ++ (46 ∷ rest)) ≡ s ∷ split 46 rest
unfolding split
split-digits [] rest h = refl
split-digits (c ∷ s) rest h =
    let later = split-digits s rest (ground (arith, h)) in
    let plain : (c == 46) ≡ false = ground (arith, h) in rw (plain, later) refl

split-last : (s : Text) → every is_digit s ≡ true → split 46 s ≡ s ∷ []
unfolding split
split-last [] h = refl
split-last (c ∷ s) h =
    let later = split-last s (ground (arith, h)) in
    let plain : (c == 46) ≡ false = ground (arith, h) in rw (plain, later) refl

split-show :
    (a b c d : ℕ)
    → a < 256
    → b < 256
    → c < 256
    → d < 256
    → split 46 (show_ipv4 a b c d) ≡ show_byte a ∷ show_byte b ∷ show_byte c ∷ show_byte d ∷ []
split-show a b c d x y z w =
    rw
      (
        split-digits (show_byte a) (show_byte b ++ (46 ∷ (show_byte c ++ (46 ∷ show_byte d))))
            (all_digits a x),
        split-digits (show_byte b) (show_byte c ++ (46 ∷ show_byte d)) (all_digits b y),
        split-digits (show_byte c) (show_byte d) (all_digits c z),
        split-last (show_byte d) (all_digits d w),
      )
      refl

-- Four bytes, written as a dotted quad, are read back as they were.
pub parse_ipv4-show_ipv4 :
    (a b c d : ℕ)
    → a < 256
    → b < 256
    → c < 256
    → d < 256
    → parse_ipv4 (show_ipv4 a b c d) ≡ some (a ∷ b ∷ c ∷ d ∷ [])
unfolding parse_ipv4 parse_bytes
parse_ipv4-show_ipv4 a b c d x y z w =
    rw
      (
        split-show a b c d x y z w,
        parse_byte-show a x,
        parse_byte-show b y,
        parse_byte-show c z,
        parse_byte-show d w,
      )
      refl

cons_opt-eq-some :
    {A : Type 0} (o : Option A) (rest : Option (List A)) {l : List A}
    → cons_opt o rest ≡ some l
    → (a : A) × (more : List A) × (o ≡ some a) × (rest ≡ some more) × (l ≡ a ∷ more)
cons_opt-eq-some none rest e = cc
cons_opt-eq-some (some a) none e = cc
cons_opt-eq-some (some a) (some more) e = (a, more, refl, refl, cc)

parse_byte-bound : (part : Text) {n : ℕ} → parse_byte part ≡ some n → n < 256
unfolding parse_byte
parse_byte-bound part {n} e = ground (arith, e)

bytes-bound :
    (parts : List Text) {l : List ℕ}
    → parse_bytes parts ≡ some l
    → All (λ n. n < 256) l × (length l ≡ length parts)
unfolding parse_bytes
bytes-bound [] {l} e =
    let same : [] ≡ l = cc in subst (λ q. All (λ n. n < 256) q × (length q ≡ 0)) same (tt, refl)
bytes-bound (part ∷ parts) {l} e =
    let (a, more, first, rest, same) = cons_opt-eq-some (parse_byte part) (parse_bytes parts) e in
    let (below, long) = bytes-bound parts rest in
    rw same ((parse_byte-bound part first, below), omega (arith, long))

parse_ipv4-bound :
    (value : Text) {l : List ℕ} → parse_ipv4 value ≡ some l → All (λ n. n < 256) l × (length l ≡ 4)
unfolding parse_ipv4
parse_ipv4-bound value {l} e = elim (Bool-cases (length (split 46 value) == 4)) [
  | inl t ↦
      let (below, long) = bytes-bound (split 46 value) (rw t at e) in
      (below, ground (arith, long, t))
  | inr f ↦ cc (rw f at e)
]
