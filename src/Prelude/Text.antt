-- ===== src/Prelude/Text.antt =====
-- The order of Go strings: bytewise, which for UTF-8 is the order of the code points.
use Prim.Native.Char.{code}
use Prim.Native.Nat.{ℕ}
use Prim.Native.String.{String}
use mathlib.Core.Path.{◌≡◌, refl}
use mathlib.Core.Bool.{Bool, true, false}
use mathlib.Core.List.{List, [], ◌∷◌}
use native.Mathlib.Omega.{arith}
use nebula_flow.Prelude.Tests.{ltb, nat_beq, if◌then◌else◌, string_eq}
use nebula_flow.Prelude.Counts.{count}

abbrev pub codes : String → List ℕ
codes String.[] = []
codes (String.◌∷◌ c s) = code c ∷ codes s

abbrev pub codes_leb : List ℕ → List ℕ → Bool
codes_leb [] ys = true
codes_leb (x ∷ xs) [] = false
codes_leb (x ∷ xs) (y ∷ ys) =
    let rest = codes_leb xs ys in if ltb x y then true else if nat_beq x y then rest else false

unfoldable pub str_leb : String → String → Bool
str_leb s t = codes_leb (codes s) (codes t)

codes_leb_total : (xs ys : List ℕ) → codes_leb xs ys ≡ false → codes_leb ys xs ≡ true
codes_leb_total [] ys h = ground arith
codes_leb_total (x ∷ xs) [] h = refl
codes_leb_total (x ∷ xs) (y ∷ ys) h = ground (arith, codes_leb_total xs ys)

pub str_leb_total : (s t : String) → str_leb s t ≡ false → str_leb t s ≡ true
unfolding str_leb
str_leb_total s t h = codes_leb_total (codes s) (codes t) h

-- `sort.Strings`.
abbrev pub insert_sorted : String → List String → List String
insert_sorted x [] = x ∷ []
insert_sorted x (y ∷ ys) =
    let rest = insert_sorted x ys in if str_leb x y then x ∷ y ∷ ys else y ∷ rest

unfoldable pub sort_strings : List String → List String
sort_strings [] = []
sort_strings (x ∷ xs) = insert_sorted x (sort_strings xs)

count-insert_sorted :
    (k x : String) (ys : List String) → count k (insert_sorted x ys) ≡ count k (x ∷ ys)
count-insert_sorted k x [] = refl
count-insert_sorted k x (y ∷ ys) = ground (arith, count-insert_sorted k x ys)

-- Sorting keeps the items, each as often.
pub count-sort_strings : (k : String) (xs : List String) → count k (sort_strings xs) ≡ count k xs
unfolding sort_strings
count-sort_strings k [] = refl
count-sort_strings k (x ∷ xs) =
    omega (arith, count-insert_sorted k x (sort_strings xs), count-sort_strings k xs)

abbrev pub HeadLeb : String → List String → Type 0
HeadLeb x [] = Unit
HeadLeb x (y ∷ ys) = str_leb x y ≡ true

abbrev pub IsSorted : List String → Type 0
IsSorted [] = Unit
IsSorted (x ∷ xs) = HeadLeb x xs × IsSorted xs

insert_sorted-HeadLeb :
    (z x : String) (ys : List String)
    → str_leb z x ≡ true
    → HeadLeb z ys
    → HeadLeb z (insert_sorted x ys)
insert_sorted-HeadLeb z x [] h k = h
insert_sorted-HeadLeb z x (y ∷ ys) h k = ground arith

insert_sorted-IsSorted :
    (x : String) (ys : List String) → IsSorted ys → IsSorted (insert_sorted x ys)
insert_sorted-IsSorted x [] h = (tt, tt)
insert_sorted-IsSorted x (y ∷ ys) h =
    ground (arith, insert_sorted-IsSorted x ys h.1, insert_sorted-HeadLeb y x ys, str_leb_total x y)

pub sort_strings-IsSorted : (xs : List String) → IsSorted (sort_strings xs)
unfolding sort_strings
sort_strings-IsSorted [] = tt
sort_strings-IsSorted (x ∷ xs) =
    insert_sorted-IsSorted x (sort_strings xs) (sort_strings-IsSorted xs)
