-- ===== src/Base/Words.antt =====
-- Machine words as numbers below a power of two, with the wrap-around written out.
use Prim.Native.Nat.{ℕ, suc, ◌+◌, ◌-◌, ◌%◌, ◌^◌, ◌<◌}
use mathlib.Core.Logic.{◌≢◌}
use native.Mathlib.Omega.{arith}
use native.Mathlib.Decide.{dec_lt}
use native.Mathlib.Nat.{mod-add-mod, mod-eq_of_lt, mod-lt, mod-eq-sub-mod}

abbrev pub u16_mod : ℕ
u16_mod = 2 ^ 16

abbrev pub u32_mod : ℕ
u32_mod = 2 ^ 32

abbrev pub u64_mod : ℕ
u64_mod = 2 ^ 64

-- `size_t`, `uint64_t` addition and subtraction
abbrev pub add64 : ℕ → ℕ → ℕ
add64 a b = (a + b) % u64_mod

abbrev pub sub64 : ℕ → ℕ → ℕ
sub64 a b = (a + u64_mod - b) % u64_mod

-- `uint32_t` addition and subtraction
abbrev pub add32 : ℕ → ℕ → ℕ
add32 a b = (a + b) % u32_mod

abbrev pub sub32 : ℕ → ℕ → ℕ
sub32 a b = (a + u32_mod - b) % u32_mod

-- Fewer than `cap` steps on, a cursor points at another slot.
pub slot-ne : {cap : ℕ} (c k : ℕ) → 0 < cap → suc k < cap → (c + suc k) % cap ≢ c % cap
slot-ne {cap} c k hp hk e = elim (dec_lt (c % cap + suc k) cap) [
  | yes p ↦ omega (arith, mod-eq_of_lt p, mod-add-mod c cap (suc k))
  | no p ↦ omega (
    arith,
    mod-lt c hp,
    mod-add-mod c cap (suc k),
    mod-eq-sub-mod {n = c % cap + suc k} {m = cap} (omega arith),
    mod-eq_of_lt {n = c % cap + suc k - cap} {m = cap} (omega (arith, mod-lt c hp)),
  )
]
