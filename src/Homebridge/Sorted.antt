-- ===== src/Homebridge/Sorted.antt =====
-- What `sort.Strings` does in homebridge.go: the strings ascend, and each stands there as often as before.
use Prim.Native.Nat.{Ordering, zero, suc}
use Prim.Native.Nat.compare as compare_ℕ
use Prim.Native.Nat.{compare as compare_ℕ}
use Prim.Native.Char.{code}
use Prim.Native.String.compare
use Prim.Native.String.{compare, then as then_ordering}
use pentameter.Prelude.{
  ℕ, ◌+◌, String, Bool, true, false, List, [], ◌∷◌, ◌==◌, ◌≡◌, refl, sym, ap, ◌∙◌, arith, if_split,
  if◌then◌else◌,
}
use pentameter.Homebridge.Items.{le_text, insert_sorted, sort}

abbrev flip : Ordering → Ordering
flip Ordering.lt = Ordering.gt
flip Ordering.eq = Ordering.eq
flip Ordering.gt = Ordering.lt

flip-then : (o r : Ordering) → then_ordering (flip o) (flip r) ≡ flip (then_ordering o r)
flip-then Ordering.lt r = refl
flip-then Ordering.eq r = refl
flip-then Ordering.gt r = refl

compare_ℕ-flip : (m n : ℕ) → compare_ℕ m n ≡ flip (compare_ℕ n m)
compare_ℕ-flip zero zero = compare_ℕ.zero-zero ∙ ap flip (sym compare_ℕ.zero-zero)
compare_ℕ-flip zero (suc n) = compare_ℕ.zero-suc n ∙ ap flip (sym (compare_ℕ.suc-zero n))
compare_ℕ-flip (suc m) zero = compare_ℕ.suc-zero m ∙ ap flip (sym (compare_ℕ.zero-suc m))
compare_ℕ-flip (suc m) (suc n) =
    compare_ℕ.suc-suc m n ∙ (compare_ℕ-flip m n ∙ ap flip (sym (compare_ℕ.suc-suc n m)))

compare-flip : (s t : String) → compare s t ≡ flip (compare t s)
compare-flip String.[] String.[] = compare.nil-nil ∙ ap flip (sym compare.nil-nil)
compare-flip String.[] (String.◌∷◌ d t) =
    compare.nil-cons d t ∙ ap flip (sym (compare.cons-nil d t))
compare-flip (String.◌∷◌ c s) String.[] =
    compare.cons-nil c s ∙ ap flip (sym (compare.nil-cons c s))
compare-flip (String.◌∷◌ c s) (String.◌∷◌ d t) =
    compare.cons-cons c d s t
    ∙ (ap (λ o. then_ordering o (compare s t)) (compare_ℕ-flip (code c) (code d))
        ∙ (ap (then_ordering (flip (compare_ℕ (code d) (code c)))) (compare-flip s t)
            ∙ (flip-then (compare_ℕ (code d) (code c)) (compare t s)
                ∙ ap flip (sym (compare.cons-cons d c t s)))))

-- `a <= b` of Go, from the comparison of the two texts.
abbrev is_le : Ordering → Bool
is_le Ordering.lt = true
is_le Ordering.eq = true
is_le Ordering.gt = false

is_le-flip : (o : Ordering) → is_le o ≡ false → is_le (flip o) ≡ true
is_le-flip Ordering.lt h = cc
is_le-flip Ordering.eq h = refl
is_le-flip Ordering.gt h = refl

-- The first text is not greater than the second.
abbrev pub IsLe : String → String → Type 0
IsLe a b = is_le (compare a b) ≡ true

-- The text is not greater than the first of the list, if it has one.
abbrev pub IsBelow : String → List String → Type 0
IsBelow a [] = Unit
IsBelow a (b ∷ bs) = IsLe a b

abbrev pub IsAscending : List String → Type 0
IsAscending [] = Unit
IsAscending (a ∷ as') = IsBelow a as' × IsAscending as'

-- How often a text stands in a list.
unfoldable pub occurrences : String → List String → ℕ
occurrences x [] = 0
occurrences x (a ∷ as') = let rest = occurrences x as' in if a == x then 1 + rest else rest

le_text-is_le : (o : Ordering) → elim o [ Ordering.gt ↦ false | _ ↦ true ] ≡ is_le o
le_text-is_le Ordering.lt = refl
le_text-is_le Ordering.eq = refl
le_text-is_le Ordering.gt = refl

-- What stands below a list and an element, stands below the list with that element.
insert_sorted-IsBelow :
    (b a : String) (bs : List String) → IsLe b a → IsBelow b bs → IsBelow b (insert_sorted a bs)
unfolding insert_sorted
insert_sorted-IsBelow b a [] h k = h
insert_sorted-IsBelow b a (c ∷ bs) h k = if_split (IsBelow b) (le_text a c) (λ _. h) (λ _. k)

insert_sorted-IsAscending :
    (a : String) (bs : List String) → IsAscending bs → IsAscending (insert_sorted a bs)
unfolding insert_sorted
insert_sorted-IsAscending a [] h = (tt, tt)
insert_sorted-IsAscending a (b ∷ bs) (below, h) =
    if_split {x = a ∷ b ∷ bs} {y = b ∷ insert_sorted a bs} IsAscending (le_text a b)
      (λ le. (sym (le_text-is_le (compare a b)) ∙ le, (below, h)))
      (λ gt.
        let greater = sym (le_text-is_le (compare a b)) ∙ gt in
        let le : IsLe b a = ap is_le (compare-flip b a) ∙ is_le-flip (compare a b) greater in
        (insert_sorted-IsBelow b a bs le below, insert_sorted-IsAscending a bs h))

pub sort-IsAscending : (as' : List String) → IsAscending (sort as')
unfolding sort
sort-IsAscending [] = tt
sort-IsAscending (a ∷ as') = insert_sorted-IsAscending a (sort as') (sort-IsAscending as')

occurrences-insert_sorted :
    (x a : String) (bs : List String) → occurrences x (insert_sorted a bs) ≡ occurrences x (a ∷ bs)
unfolding occurrences insert_sorted
occurrences-insert_sorted x a [] = refl
occurrences-insert_sorted x a (b ∷ bs) =
    let rest = occurrences-insert_sorted x a bs in
    if_split {x = a ∷ b ∷ bs} {y = b ∷ insert_sorted a bs}
      (λ l. occurrences x l ≡ occurrences x (a ∷ b ∷ bs)) (le_text a b) (λ _. refl)
      (λ _. ground (arith, rest))

pub occurrences-sort :
    (x : String) (as' : List String) → occurrences x (sort as') ≡ occurrences x as'
unfolding occurrences sort
occurrences-sort x [] = refl
occurrences-sort x (a ∷ as') =
    let rest = occurrences-sort x as' in
    occurrences-insert_sorted x a (sort as') ∙ ap (λ n. if a == x then 1 + n else n) rest
