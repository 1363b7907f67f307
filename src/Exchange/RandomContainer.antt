-- ===== src/Exchange/RandomContainer.antt =====
-- includes/utils/random-container.hpp: RandomContainer, whose `CAPACITY` is `cap`. A draw of the
-- random generator, which lies below the size, is an argument.
use hft_architecture.Base.{
  ℕ, zero, suc, ◌+◌, ◌-◌, ◌≤◌, ◌<◌, ◌≡◌, refl, sym, ap, ◌∙◌, inl, inr, Bool, true, false, Option,
  none, some, arith, dec_lt, ltb, ◌==◌, if◌then◌else◌, ==_of_ne, eq_of_==, Bool-cases, Array, put,
  put_self, put_ne,
}

pub record RandomContainer {ℓ} (A : Type ℓ) : Type ℓ where
  pub buffer : Array A
  pub size : ℕ

module _ {ℓ} {A : Type ℓ} (cap : ℕ) where
  unfoldable pub add : A → RandomContainer A → Bool × RandomContainer A
  add item s =
      if ltb s.size cap
      then (true, record { buffer = put s.buffer s.size item; size = s.size + 1 })
      else (false, s)

module _ {ℓ} {A : Type ℓ} where
  unfoldable pub get_random : ℕ → RandomContainer A → Option A
  get_random draw s = if s.size == 0 then none else some (s.buffer draw)

  -- The last item takes the place of the one that is removed.
  unfoldable pub remove_random : ℕ → RandomContainer A → Option A × RandomContainer A
  remove_random draw s = if s.size == 0 then (none, s) else (
    some (s.buffer draw),
    record {
      buffer = if draw == s.size - 1 then s.buffer else put s.buffer draw (s.buffer (s.size - 1));
      size = s.size - 1;
    },
  )

-- how many of the items are `a`, by a test
unfoldable pub tally {ℓ} : {A : Type ℓ} → (A → Bool) → Array A → ℕ → ℕ
tally is buffer zero = 0
tally is buffer (suc n) = (if is (buffer n) then 1 else 0) + tally is buffer n

tally-past {ℓ} :
    {A : Type ℓ} (is : A → Bool) (buffer : Array A) (i n : ℕ) (a : A)
    → n ≤ i
    → tally is (put buffer i a) n ≡ tally is buffer n
unfolding tally
tally-past is buffer i zero a le = refl
tally-past is buffer i (suc n) a le =
    rw (put_ne buffer i n a (omega arith), tally-past is buffer i n a (omega arith)) refl

tally-put {ℓ} :
    {A : Type ℓ} (is : A → Bool) (buffer : Array A) (i n : ℕ) (a : A)
    → i < n
    → tally is (put buffer i a) n + (if is (buffer i) then 1 else 0)
      ≡ tally is buffer n + (if is a then 1 else 0)
unfolding tally
tally-put is buffer i zero a lt = absurd (omega arith)
tally-put is buffer i (suc n) a lt = elim (dec_lt i n) [
  | yes p ↦ omega (
    arith,
    tally-put is buffer i n a p,
    ap {B = ℕ} (λ x. if is x then 1 else 0) (put_ne buffer i n a (omega arith)),
  )
  | no p ↦
      let same : i ≡ n = omega arith in
      omega (
        arith,
        tally-past is buffer i n a (omega arith),
        ap {B = ℕ} (λ x. if is x then 1 else 0)
            (ap (put buffer i a) (sym same) ∙ put_self buffer i a),
        ap {B = ℕ} (λ k. if is (buffer k) then 1 else 0) same,
      )
]

last_out {ℓ} :
    {A : Type ℓ} (is : A → Bool) (buffer : Array A) (n : ℕ)
    → 0 < n
    → tally is buffer n ≡ tally is buffer (n - 1) + (if is (buffer (n - 1)) then 1 else 0)
unfolding tally
last_out is buffer zero pos = absurd (omega arith)
last_out is buffer (suc n) pos =
    let same : n ≡ suc n - 1 = omega arith in
    omega (arith, ap (tally is buffer) same, ap {B = ℕ} (λ k. if is (buffer k) then 1 else 0) same)

-- Removing a random item takes that item out and leaves the others: by any test of the items, the
-- container holds as many as before, less the one that is returned.
pub remove_random-removes {ℓ} :
    {A : Type ℓ} (is : A → Bool) (draw : ℕ) (s : RandomContainer A)
    → draw < s.size
    → let (out, s') = remove_random draw s in
      (out ≡ some (s.buffer draw))
      × (suc s'.size ≡ s.size)
      × (tally is s'.buffer s'.size + (if is (s.buffer draw) then 1 else 0)
          ≡ tally is s.buffer s.size)
unfolding remove_random
remove_random-removes is draw s lt = rw (==_of_ne s.size 0 (omega arith)) (
  refl,
  omega arith,
  rw (last_out is s.buffer s.size (omega arith)) (elim (Bool-cases (draw == s.size - 1)) [
    | inl e ↦ rw e (
        ap (λ k. tally is s.buffer (s.size - 1) + (if is (s.buffer k) then 1 else 0))
          (eq_of_== _ _ e))
    | inr e ↦ rw e (tally-put is s.buffer draw (s.size - 1) (s.buffer (s.size - 1)) (ground arith))
  ]),
)
