-- ===== src/Book/OrderPool.antt =====
-- includes/order-book/order-pool.hpp: OrderPool, a fixed array of orders with a stack of the indexes
-- that are free. The arrays are functions of all indexes: an index beyond the capacity, which is
-- undefined in the source, is not turned into `none` by `free`, `get` and `set`, whose users have to
-- keep theirs in range. To allocate from an empty stack is.
use hft_architecture.Base.{
  ℕ, ◌≤◌, ◌<◌, ◌≡◌, refl, sym, ap, ◌∙◌, ◌≢◌, ◌↔◌, inl, inr, false, Option, none, some, arith, ◌==◌,
  if◌then◌else◌, eq_of_==, Bool-cases, Array, put, put_self, put_ne, u32_mod, add32, sub32,
}
use hft_architecture.Order.{RestingOrder}

pub record OrderPool : Type 0 where
  pub orders : Array RestingOrder
  pub free_stack : Array ℕ
  pub top_index : ℕ

-- the constructor, over an array that holds whatever it held
unfoldable pub new : ℕ → Array RestingOrder → OrderPool
new cap storage = record { orders = storage; free_stack = λ i. i; top_index = cap }

-- `none` is a pool whose stack is empty, from in front of which the source would read.
unfoldable pub allocate : RestingOrder → OrderPool → Option (ℕ × OrderPool)
allocate order p =
    if p.top_index == 0
    then none
    else (let top = sub32 p.top_index 1 in
        let order_idx = p.free_stack top in
        some (order_idx, record p { orders = put p.orders order_idx order; top_index = top }))

unfoldable pub free : ℕ → OrderPool → OrderPool
free idx p = record p {
  free_stack = put p.free_stack p.top_index idx;
  top_index = add32 p.top_index 1;
}

unfoldable pub get : ℕ → OrderPool → RestingOrder
get idx p = p.orders idx

-- an assignment through the reference that `get` returned
unfoldable pub set : ℕ → RestingOrder → OrderPool → OrderPool
set idx order p = record p { orders = put p.orders idx order }

-- Index `i` stands on the stack.
abbrev pub IsFree : OrderPool → ℕ → Type 0
IsFree p i = (t : ℕ) × (t < p.top_index) × (p.free_stack t ≡ i)

-- The stack holds indexes of the array, each at most once.
pub record IsValid (cap : ℕ) (p : OrderPool) : Type 0 where
  pub fits : cap < u32_mod
  pub top_in : p.top_index ≤ cap
  pub range : (t : ℕ) → t < p.top_index → p.free_stack t < cap
  pub distinct :
      (s t : ℕ) → s < p.top_index → t < p.top_index → p.free_stack s ≡ p.free_stack t → s ≡ t

-- The constructor's pool is valid, and every index is free.
pub new-IsValid :
    (cap : ℕ) (storage : Array RestingOrder)
    → cap < u32_mod
    → IsValid cap (new cap storage) × ((i : ℕ) → i < cap → IsFree (new cap storage) i)
unfolding new
new-IsValid cap storage h = (
  record { fits = h; top_in = omega arith; range = λ t lt. lt; distinct = λ s t hs ht e. e },
  λ i lt. (i, lt, refl),
)

-- While some index is free, `allocate` succeeds and returns an index of the array that was free and is free no
-- longer, stores the order there, changes no other order, keeps every other index free or in use as
-- it was, and keeps the pool valid.
pub allocate_lem :
    (cap : ℕ) (order : RestingOrder) (p : OrderPool)
    → IsValid cap p
    → 0 < p.top_index
    → (i : ℕ) × (p' : OrderPool) × (allocate order p ≡ some (i, p'))
      × (i < cap)
      × IsFree p i
      × (¬ IsFree p' i)
      × (get i p' ≡ order)
      × ((j : ℕ) → j ≢ i → get j p' ≡ get j p)
      × ((j : ℕ) → j ≢ i → IsFree p j ↔ IsFree p' j)
      × IsValid cap p'
unfolding allocate get
allocate_lem cap order p v some_free = (
  p.free_stack top,
  record p { orders = put p.orders (p.free_stack top) order; top_index = top },
  (let stocked : (p.top_index == 0) ≡ false = ground arith in rw stocked refl),
  v.range top (omega arith),
  (top, omega arith, refl),
  (λ f. absurd (omega (arith, v.distinct f.0 top (omega arith) (omega arith) f.2))),
  put_self p.orders (p.free_stack top) order,
  (λ j ne. put_ne p.orders (p.free_stack top) j order (λ e. ne (sym e))),
  (λ j ne. ((λ f. (f.0, below j ne f, f.2)), (λ f. (f.0, omega arith, f.2)))),
  record {
    fits = v.fits;
    top_in = omega arith;
    range = λ t lt. v.range t (omega arith);
    distinct = λ s t hs ht e. v.distinct s t (omega arith) (omega arith) e;
  },
)
  where
    top : ℕ
    top = sub32 p.top_index 1

    below : (j : ℕ) → j ≢ p.free_stack top → (f : IsFree p j) → f.0 < top
    below j ne f = elim (Bool-cases (f.0 == top)) [
      | inl e ↦ absurd (ne (sym f.2 ∙ ap p.free_stack (eq_of_== _ _ e)))
      | inr e ↦ ground (arith, v.fits, v.top_in)
    ]

-- Freeing an index of the array that is in use, while the stack is not full, makes that index free,
-- keeps every other as it was, changes no order, and keeps the pool valid.
pub free_lem :
    (cap i : ℕ) (p : OrderPool)
    → IsValid cap p
    → i < cap
    → p.top_index < cap
    → (¬ IsFree p i)
    → let p' = free i p in
      IsFree p' i
      × ((j : ℕ) → j ≢ i → IsFree p j ↔ IsFree p' j)
      × ((j : ℕ) → get j p' ≡ get j p)
      × IsValid cap p'
unfolding free get
free_lem cap i p v lt room in_use = (
  (p.top_index, omega (arith, v.fits), put_self p.free_stack p.top_index i),
  (λ j ne. ((λ f. (f.0, omega (arith, v.fits), ground (arith, f.1, f.2))), (λ f. old j ne f))),
  (λ j. refl),
  record {
    fits = v.fits;
    top_in = omega (arith, v.fits);
    range = λ t h. ground (arith, v.fits, v.range t);
    distinct = λ s t hs ht e. ground (arith, v.fits, v.distinct s t, used s, used t);
  },
)
  where
    used : (t : ℕ) → t < p.top_index → p.free_stack t ≢ i
    used t h e = in_use (t, h, e)

    old : (j : ℕ) → j ≢ i → IsFree (free i p) j → IsFree p j
    old j ne f = (f.0, ground (arith, v.fits, f.1, f.2), ground (arith, f.1, f.2))
