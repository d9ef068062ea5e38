-- ===== src/Response/Case.antt =====
-- namespace detail of include/cofetch.h: the hash and the comparison of header names.
pub mod Laws
use cofetch.Base.{
  ℕ, zero, suc, ◌+◌, ◌-◌, ◌*◌, ◌%◌, ◌^◌, Bool, true, false, not, ◌&&◌, [], ◌∷◌, leb, ◌==◌,
  if◌then◌else◌, length, get_or,
}
use cofetch.Response.{Bytes}

unfoldable pub ascii_lower : ℕ → ℕ
ascii_lower c = if leb b'A' c && leb c b'Z' then c - b'A' + b'a' else c

-- The modulus of a 64-bit `size_t`.
abbrev pub size_mod : ℕ
size_mod = 2 ^ 64

hash_from : ℕ → Bytes → ℕ
hash_from h [] = h
hash_from h (c ∷ s) = hash_from ((h * 31 + ascii_lower c) % size_mod) s

-- CiHash
unfoldable pub ci_hash : Bytes → ℕ
unfolding hash_from ascii_lower
ci_hash s = hash_from 0 s

-- The loop of CiEqual, with the rounds that are left and the index.
equal_from : ℕ → ℕ → Bytes → Bytes → Bool
equal_from zero i a b = true
equal_from (suc left) i a b =
    let rest = equal_from left (i + 1) a b in
    if not (ascii_lower (get_or a i 0) == ascii_lower (get_or b i 0)) then false else rest

-- CiEqual
unfoldable pub ci_equal : Bytes → Bytes → Bool
unfolding equal_from ascii_lower
ci_equal a b = if not (length a == length b) then false else equal_from (length a) 0 a b
