-- ===== src/Base/Sort.antt =====
-- A stable sort by a strict order, and when the order of its input does not matter.
use mathlib.Core.Path.{◌≡◌, refl, sym, ◌∙◌}
use mathlib.Core.Logic.{inl, inr}
use mathlib.Core.Bool.{Bool, true, false}
use mathlib.Core.List.{List, [], ◌∷◌, Permᴰ, Memᴰ}
use native.Mathlib.Omega.{arith}
use octopus_job_search.Base.Tests.{if◌then◌else◌, Bool-cases}

module _ {ℓ} {A : Type ℓ} (lt : A → A → Bool) where
  -- In front of the first entry that is not smaller, so equal entries keep their order.
  unfoldable pub insert : A → List A → List A
  insert x [] = x ∷ []
  insert x (y ∷ ys) = if lt y x then y ∷ insert x ys else x ∷ y ∷ ys

  unfoldable pub sort : List A → List A
  sort [] = []
  sort (x ∷ xs) = insert x (sort xs)

  -- What the sort needs of the order: a strict order, by which apart entries are compared.
  pub record IsStrict : Type ℓ where
    pub irrefl : (a : A) → lt a a ≡ false
    pub trans : (a b c : A) → lt a b ≡ true → lt b c ≡ true → lt a c ≡ true

  -- Entries of the list that the order does not tell apart are the same entry.
  abbrev pub IsTotalOn : List A → Type ℓ
  IsTotalOn l = (a b : A) → Memᴰ a l → Memᴰ b l → lt a b ≡ false → lt b a ≡ false → a ≡ b

  lt_asymm : IsStrict → (a b : A) → lt a b ≡ true → lt b a ≡ false
  lt_asymm s a b h = elim (Bool-cases (lt b a)) [
    | inl k ↦ cc (s.trans a b a h k, s.irrefl a)
    | inr k ↦ k
  ]

  insert_comm :
      IsStrict
      → (x y : A) → lt x y ≡ true
      → (l : List A) → insert x (insert y l) ≡ insert y (insert x l)
  unfolding insert
  insert_comm s x y h [] = ground (arith, lt_asymm s x y h)
  insert_comm s x y h (z ∷ l) =
      ground (arith, lt_asymm s x y h, s.trans z x y, insert_comm s x y h l)

  insert_swap :
      IsStrict
      → (x y : A) → (lt x y ≡ false → lt y x ≡ false → x ≡ y)
      → (l : List A) → insert x (insert y l) ≡ insert y (insert x l)
  insert_swap s x y t l = elim (Bool-cases (lt x y)) [
    | inl h ↦ insert_comm s x y h l
    | inr h ↦ elim (Bool-cases (lt y x)) [
      | inl k ↦ sym (insert_comm s y x k l)
      | inr k ↦ let e : x ≡ y = t h k in rw e
    ]
  ]

  mem_of_perm : {l m : List A} → Permᴰ l m → (a : A) → Memᴰ a m → Memᴰ a l
  mem_of_perm Permᴰ.nil a i = i
  mem_of_perm (Permᴰ.cons e p) a (Memᴰ.head h) = Memᴰ.head (h ∙ sym e)
  mem_of_perm (Permᴰ.cons e p) a (Memᴰ.tail i) = Memᴰ.tail (mem_of_perm p a i)
  mem_of_perm (Permᴰ.swap e f) a (Memᴰ.head h) = Memᴰ.tail (Memᴰ.head (h ∙ sym f))
  mem_of_perm (Permᴰ.swap e f) a (Memᴰ.tail (Memᴰ.head h)) = Memᴰ.head (h ∙ sym e)
  mem_of_perm (Permᴰ.swap e f) a (Memᴰ.tail (Memᴰ.tail i)) = Memᴰ.tail (Memᴰ.tail i)
  mem_of_perm (Permᴰ.trans p q) a i = mem_of_perm p a (mem_of_perm q a i)

  -- The order of the input does not show in the result.
  pub sort-Permᴰ : IsStrict → {l m : List A} → Permᴰ l m → IsTotalOn l → sort l ≡ sort m
  unfolding sort
  sort-Permᴰ s Permᴰ.nil t = refl
  sort-Permᴰ s (Permᴰ.cons e p) t =
      cc (sort-Permᴰ s p (λ a b i j. t a b (Memᴰ.tail i) (Memᴰ.tail j)), e)
  sort-Permᴰ s (Permᴰ.swap {a = x} {b = y} {l = r} e f) t =
      cc (insert_swap s x y (t x y (Memᴰ.head refl) (Memᴰ.tail (Memᴰ.head refl))) (sort r), e, f)
  sort-Permᴰ s (Permᴰ.trans p q) t =
      sort-Permᴰ s p t ∙ sort-Permᴰ s q (λ a b i j. t a b (mem_of_perm p a i) (mem_of_perm p b j))
