-- ===== src/Response/Views.antt =====
-- The `std::string_view` operations that Response uses; `none` stands for npos.
use cofetch.Base.{
  ℕ, ◌+◌, Bool, true, false, ◌&&◌, ◌||◌, [], ◌∷◌, Option, none, some, ◌==◌, if◌then◌else◌, take,
  drop,
}
use cofetch.Response.{Bytes}

-- `substr(pos, n)`
abbrev pub substr : ℕ → ℕ → Bytes → Bytes
substr pos n s = take n (drop pos s)

unfoldable pub find_at : ℕ → ℕ → Bytes → Option ℕ
find_at c i [] = none
find_at c i (x ∷ s) = if x == c then some i else find_at c (i + 1) s

-- `find(c, pos)`
unfoldable pub find : ℕ → ℕ → Bytes → Option ℕ
find c pos s = find_at c pos (drop pos s)

unfoldable pub starts_with : Bytes → Bytes → Bool
starts_with [] s = true
starts_with (p ∷ ps) [] = false
starts_with (p ∷ ps) (x ∷ s) = p == x && starts_with ps s

unfoldable pub rfind_at : Bytes → ℕ → Bytes → Option ℕ
rfind_at p i [] = if starts_with p [] then some i else none
rfind_at p i (x ∷ s) = elim (rfind_at p (i + 1) s) [
  | some j ↦ some j
  | none ↦ if starts_with p (x ∷ s) then some i else none
]

-- `rfind(p)`
unfoldable pub rfind : Bytes → Bytes → Option ℕ
rfind p s = rfind_at p 0 s

unfoldable pub elem : ℕ → Bytes → Bool
elem c [] = false
elem c (x ∷ set) = c == x || elem c set

unfoldable pub first_not_of_at : Bytes → ℕ → Bytes → Option ℕ
first_not_of_at set i [] = none
first_not_of_at set i (x ∷ s) = if elem x set then first_not_of_at set (i + 1) s else some i

-- `find_first_not_of(set)`
unfoldable pub find_first_not_of : Bytes → Bytes → Option ℕ
find_first_not_of set s = first_not_of_at set 0 s

unfoldable pub last_not_of_at : Bytes → ℕ → Bytes → Option ℕ
last_not_of_at set i [] = none
last_not_of_at set i (x ∷ s) = elim (last_not_of_at set (i + 1) s) [
  | some j ↦ some j
  | none ↦ if elem x set then none else some i
]

-- `find_last_not_of(set)`
unfoldable pub find_last_not_of : Bytes → Bytes → Option ℕ
find_last_not_of set s = last_not_of_at set 0 s
