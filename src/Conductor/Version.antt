-- ===== src/Conductor/Version.antt =====
-- iotronic/conductor/endpoints.py: versionCompare. A text is the list of its code points. int() is
-- modelled on plain decimal digits; other texts that Python's int() takes (signs, blanks around,
-- underscores, digits of other scripts) are ValueErrors here.
pub mod Order
use stack4things_openstack_i.Action.{Exception, Result, ok, raised}
use stack4things_openstack_i.Base.{
  Bool, List, [], codes, false, if◌then◌else◌, leb, ltb, negsuc, pos, reverse, true, ℕ, ℤ, ◌&&◌,
  ◌*◌, ◌+◌, ◌-◌, ◌==◌, ◌||◌, ◌∷◌,
}

-- text.split(b'.'), with the part in hand kept in reverse
split_from : List ℕ → List ℕ → List (List ℕ)
split_from part [] = reverse part ∷ []
split_from part (c ∷ cs) =
    let rest = split_from [] cs in
    let more = split_from (c ∷ part) cs in if c == b'.' then reverse part ∷ rest else more

abbrev is_digit : ℕ → Bool
is_digit c = leb b'0' c && leb c b'9'

unfoldable pub parse_from : ℕ → List ℕ → Result ℕ
parse_from acc [] = ok acc
parse_from acc (c ∷ cs) =
    let rest = parse_from (acc * 10 + (c - b'0')) cs in
    if is_digit c then rest else raised Exception.value_error

-- int(text)
unfoldable pub parse_int : List ℕ → Result ℕ
unfolding parse_from
parse_int [] = raised Exception.value_error
parse_int (c ∷ cs) = parse_from 0 (c ∷ cs)

starts : List ℕ → List ℕ → Bool
starts [] cs = true
starts (p ∷ ps) [] = false
starts (p ∷ ps) (c ∷ cs) = p == c && starts ps cs

-- part in text
unfoldable pub contains_text : List ℕ → List ℕ → Bool
unfolding starts
contains_text ps [] = starts ps []
contains_text ps (c ∷ cs) = starts ps (c ∷ cs) || contains_text ps cs

unfoldable first_three : List (List ℕ) → List (List ℕ)
first_three (a ∷ b ∷ c ∷ rest) = a ∷ b ∷ c ∷ []
first_three xs = xs

abbrev compare_parts : ℕ → ℕ → Result ℤ → Result ℤ
compare_parts x y rest = if ltb x y then ok (negsuc 0) else if ltb y x then ok (pos 1) else rest

abbrev with_int : Result ℕ → (ℕ → Result ℤ) → Result ℤ
with_int (ok n) f = f n
with_int (raised e) f = raised e

-- the loop: v2_list[i] is read first, and there may be no such part
unfoldable pub compare_lists : List (List ℕ) → List (List ℕ) → Result ℤ
compare_lists [] ys = ok (pos 0)
compare_lists (x ∷ xs) [] = raised Exception.index_error
compare_lists (x ∷ xs) (y ∷ ys) =
    let rest = compare_lists xs ys in
    with_int (parse_int y) (λ b. with_int (parse_int x) (λ a. compare_parts a b rest))

-- version.split(".")[:3]
unfoldable pub version_parts : List ℕ → List (List ℕ)
unfolding split_from first_three
version_parts v = first_three (split_from [] v)

-- "freedom" in version
unfoldable pub is_freedom : List ℕ → Bool
unfolding contains_text
is_freedom = contains_text (codes "freedom")

unfoldable pub version_compare : List ℕ → List ℕ → Result ℤ
unfolding is_freedom compare_lists version_parts
version_compare v1 v2 =
    if is_freedom v1 then ok (pos 1) else compare_lists (version_parts v1) (version_parts v2)
