-- ===== src/Planning/Ranges.antt =====
-- Ranges of integers, and the loops over them that append to a list.
use dedalus.Base.{
  ℤ, pos, pos_part, neg_part, ltb_ℤ, ◌+ℤ◌, ◌-ℤ◌, ℕ, zero, suc, ◌+◌, ◌≤◌, Bool, true, false, List,
  [], ◌∷◌, ◌++◌, In, ◌≡◌, refl, sym, subst, ◌⊎◌, inl, inr, arith,
}
use dedalus.Planning.{BucketKey, floor_div_pos}
use dedalus.Planning.Query.{count_up, flat_map, up_to}

-- `a` is at most `b`.
abbrev pub AtMost : ℤ → ℤ → Type 0
AtMost a b = pos_part a + neg_part b ≤ pos_part b + neg_part a

-- On each axis.
abbrev pub Between : BucketKey → BucketKey → BucketKey → Type 0
Between low b high =
    (AtMost low.x b.x × AtMost b.x high.x)
    × (AtMost low.y b.y × AtMost b.y high.y)
    × (AtMost low.z b.z × AtMost b.z high.z)

pub floor_div_pos-mono_10 :
    (a b : ℤ) → AtMost a b → AtMost (floor_div_pos a 10) (floor_div_pos b 10)
unfolding floor_div_pos
floor_div_pos-mono_10 a b h = ground (arith, h)

pub floor_div_pos-mono_5 : (a b : ℤ) → AtMost a b → AtMost (floor_div_pos a 5) (floor_div_pos b 5)
unfolding floor_div_pos
floor_div_pos-mono_5 a b h = ground (arith, h)

In-append_left : {A : Type 0} (a : A) (xs ys : List A) → In a xs → In a (xs ++ ys)
In-append_left a (x ∷ xs) ys (inl e) = inl e
In-append_left a (x ∷ xs) ys (inr h) = inr (In-append_left a xs ys h)
In-append_left a [] ys h = absurd h

In-append_right : {A : Type 0} (a : A) (xs ys : List A) → In a ys → In a (xs ++ ys)
In-append_right a [] ys h = h
In-append_right a (x ∷ xs) ys h = inr (In-append_right a xs ys h)

In-append : {A : Type 0} (a : A) (xs ys : List A) → In a (xs ++ ys) → In a xs ⊎ In a ys
In-append a [] ys h = inr h
In-append a (x ∷ xs) ys (inl e) = inl (inl e)
In-append a (x ∷ xs) ys (inr h) = elim (In-append a xs ys h) [ inl l ↦ inl (inr l) | inr r ↦ inr r ]

pub In-flat_map :
    {A B : Type 0} (f : A → List B) (xs : List A) (x : A) (y : B)
    → In x xs
    → In y (f x)
    → In y (flat_map f xs)
unfolding flat_map
In-flat_map f (a ∷ xs) x y (inl e) h =
    In-append_left y (f a) (flat_map f xs) (subst (λ z. In y (f z)) (sym e) h)
In-flat_map f (a ∷ xs) x y (inr l) h =
    In-append_right y (f a) (flat_map f xs) (In-flat_map f xs x y l h)
In-flat_map f [] x y l h = absurd l

pub flat_map-In :
    {A B : Type 0} (f : A → List B) (xs : List A) (y : B)
    → In y (flat_map f xs)
    → (x : A) × In y (f x)
unfolding flat_map
flat_map-In f [] y h = absurd h
flat_map-In f (a ∷ xs) y h = elim (In-append y (f a) (flat_map f xs) h) [
  | inl l ↦ (a, l)
  | inr r ↦ flat_map-In f xs y r
]

AtMost-antisym : (a b : ℤ) → AtMost a b → AtMost b a → a ≡ b
AtMost-antisym a b h k = ground (arith, h, k)

next_AtMost : (low i : ℤ) → AtMost low i → ltb_ℤ low i ≡ true → AtMost (low +ℤ pos 1) i
next_AtMost low i h l = ground (arith, h, l)

next_span :
    (n : ℕ) (low i : ℤ)
    → pos_part i + neg_part low + 1 ≤ pos_part low + neg_part i + suc n
    → pos_part i + neg_part (low +ℤ pos 1) + 1 ≤ pos_part (low +ℤ pos 1) + neg_part i + n
next_span n low i h = ground (arith, h)

span :
    (low high i : ℤ)
    → AtMost low i
    → AtMost i high
    → pos_part i + neg_part low + 1 ≤ pos_part low + neg_part i + pos_part (high -ℤ low +ℤ pos 1)
span low high i h l = ground (arith, h, l)

In-count_up :
    (n : ℕ) (low i : ℤ)
    → AtMost low i
    → pos_part i + neg_part low + 1 ≤ pos_part low + neg_part i + n
    → In i (count_up n low)
unfolding count_up
In-count_up zero low i h l = absurd (omega (arith, h, l))
In-count_up (suc n) low i h l = decide (ltb_ℤ low i) refl (In-count_up n (low +ℤ pos 1) i)
  where
    decide :
        (below : Bool)
        → ltb_ℤ low i ≡ below
        → (AtMost (low +ℤ pos 1) i
            → pos_part i + neg_part (low +ℤ pos 1) + 1 ≤ pos_part (low +ℤ pos 1) + neg_part i + n
            → In i (count_up n (low +ℤ pos 1)))
        → In i (low ∷ count_up n (low +ℤ pos 1))
    decide true b rest = inr (rest (next_AtMost low i h b) (next_span n low i l))
    decide false b rest = inl (AtMost-antisym low i h (ground (arith, b)))

pub In-up_to : (low high i : ℤ) → AtMost low i → AtMost i high → In i (up_to low high)
In-up_to low high i h l = In-count_up _ low i h (span low high i h l)
