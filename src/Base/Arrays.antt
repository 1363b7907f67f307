-- ===== src/Base/Arrays.antt =====
-- An array is a function of its index; the theorems about its users keep every index in range.
use Prim.Native.Nat.{ℕ}
use mathlib.Core.Path.{◌≡◌, ap, fun_ext}
use mathlib.Core.Logic.{◌≢◌, inl, inr}
use hft_architecture.Base.Tests.{◌==◌, if◌then◌else◌, ==_self, ==_of_ne, eq_of_==, Bool-cases}

abbrev pub Array {ℓ} : Type ℓ → Type ℓ
Array A = ℕ → A

module _ {ℓ} {A : Type ℓ} where
  abbrev pub put : Array A → ℕ → A → Array A
  put f i a j = if i == j then a else f j

  pub put_self : (f : Array A) (i : ℕ) (a : A) → put f i a i ≡ a
  put_self f i a = rw (==_self i)

  pub put_ne : (f : Array A) (i j : ℕ) (a : A) → i ≢ j → put f i a j ≡ f j
  put_ne f i j a h = rw (==_of_ne i j h)

  -- Writing back what an array holds changes nothing.
  pub put_same : (f : Array A) (i : ℕ) → put f i (f i) ≡ f
  put_same f i = fun_ext (λ j. same j)
    where
      same : (j : ℕ) → put f i (f i) j ≡ f j
      same j = elim (Bool-cases (i == j)) [ inl e ↦ rw e (ap f (eq_of_== i j e)) | inr e ↦ rw e ]
