-- ===== src/Wire/Bytes.antt =====
-- Numbers in network byte order. `htonll`, `htonl` or `htons` followed by `memcpy` writes the bytes of
-- a number, the most significant first; `memcpy` followed by `ntohll`, `ntohl` or `ntohs` reads them.
use native.Mathlib.Nat.{pow-suc}
use hft_architecture.Base.{
  ℕ, zero, suc, ◌+◌, ◌*◌, ◌/◌, ◌%◌, ◌^◌, ◌<◌, ◌≡◌, refl, List, [], ◌∷◌, ◌++◌, arith, length,
  length-append,
}

-- the `n` bytes of `x`, most significant first
unfoldable pub to_network : ℕ → ℕ → List ℕ
to_network zero x = []
to_network (suc n) x = to_network n (x / 256) ++ (x % 256 ∷ [])

-- the number that a run of bytes spells after the digits `acc`
abbrev pub from_digits : ℕ → List ℕ → ℕ
from_digits acc [] = acc
from_digits acc (b ∷ bs) = from_digits (acc * 256 + b) bs

unfoldable pub from_network : List ℕ → ℕ
from_network bs = from_digits 0 bs

pub length-to_network : (n x : ℕ) → length (to_network n x) ≡ n
unfolding to_network
length-to_network zero x = refl
length-to_network (suc n) x =
    omega
      (arith, length-append (to_network n (x / 256)) (x % 256 ∷ []), length-to_network n (x / 256))

from_digits-append :
    (acc : ℕ) (xs ys : List ℕ) → from_digits acc (xs ++ ys) ≡ from_digits (from_digits acc xs) ys
from_digits-append acc [] ys = refl
from_digits-append acc (x ∷ xs) ys = from_digits-append (acc * 256 + x) xs ys

-- What was written is read back, whatever its width allows.
pub from_network-to_network : (n x : ℕ) → x < 256 ^ n → from_network (to_network n x) ≡ x
unfolding from_network to_network
from_network-to_network zero x h = omega arith
from_network-to_network (suc n) x h =
    rw (from_digits-append 0 (to_network n (x / 256)) (x % 256 ∷ []))
      (omega (arith, from_network-to_network n (x / 256) shorter))
  where
    shorter : x / 256 < 256 ^ n
    shorter = omega (arith, pow-suc 256 n)
