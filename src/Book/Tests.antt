-- ===== src/Book/Tests.antt =====
-- The containers of the book at concrete inputs.
use hft_architecture.Base.{
  ℕ, ◌<◌, ◌≡◌, refl, sym, ◌∙◌, ◌≢◌, ◌↔◌, false, none, some, arith, ◌==◌, if◌then◌else◌, Array, put,
}
use mathlib.Core.Option.{some-ne-none}
use hft_architecture.Order.{RestingOrder, buy, null_index}
use hft_architecture.Book.HashMap
use hft_architecture.Book.HashMap.{ClosedHashMap, KeyValuePair, empty, occupied}
use hft_architecture.Book.HashMap.Probe as Probe
use hft_architecture.Book.HashMap.Laws.{new-IsValid, find-new}
use hft_architecture.Book.HashMap.Update.{add_lem, remove_lem, assign_lem}
use hft_architecture.Book.OrderPool
use hft_architecture.Book.OrderPool.{OrderPool, IsFree, allocate_lem, free_lem}

-- a hash that sends every key to the slot of its remainder
abbrev hash : ℕ → ℕ
hash k = k

abbrev storage : Array (KeyValuePair ℕ)
storage i = record { key = 0; value = 0 }

abbrev one_key : ClosedHashMap ℕ
one_key = record {
  slots = put storage 1 (record { key = 5; value = 50 });
  status = put (λ i. empty) 1 occupied;
}

absent_before : HashMap.find hash 4 5 (HashMap.new storage) ≡ none
absent_before = find-new hash (omega arith) storage 5

-- The key 5 enters an empty map of four slots.
add_lem_example :
    Probe.IsValid hash 4 one_key
    × ((q : ℕ)
        → HashMap.find hash 4 q one_key
          ≡ (if q == 5 then some 50 else HashMap.find hash 4 q (HashMap.new storage)))
unfolding HashMap.add HashMap.find
add_lem_example =
    add_lem hash (omega arith) (HashMap.new storage) one_key 5 50
      (new-IsValid hash (omega arith) storage) absent_before refl

one_key-IsValid : Probe.IsValid hash 4 one_key
unfolding HashMap.add HashMap.find
one_key-IsValid =
    let (valid, _) =
      add_lem hash (omega arith) (HashMap.new storage) one_key 5 50
        (new-IsValid hash (omega arith) storage) absent_before refl in
    valid

-- Removing it leaves a slot that is passed by.
remove_lem_example :
    let (done, m') = HashMap.remove hash 4 5 one_key in
    Probe.IsValid hash 4 m'
    × ((done ≡ false) ↔ (HashMap.find hash 4 5 one_key ≡ none))
    × ((q : ℕ)
        → HashMap.find hash 4 q m' ≡ (if q == 5 then none else HashMap.find hash 4 q one_key))
remove_lem_example = remove_lem hash (omega arith) one_key 5 one_key-IsValid

there : HashMap.find hash 4 5 one_key ≡ some 50
unfolding HashMap.find
there = refl

assign_lem_example :
    let m' = HashMap.assign hash 4 5 60 one_key in
    Probe.IsValid hash 4 m'
    × ((q : ℕ)
        → HashMap.find hash 4 q m' ≡ (if q == 5 then some 60 else HashMap.find hash 4 q one_key))
assign_lem_example =
    assign_lem hash (omega arith) one_key 5 60 one_key-IsValid
      (λ e. some-ne-none 50 (sym there ∙ e))

abbrev resting : RestingOrder
resting = record {
  order = record { order_id = 9; price = 3; quantity = 4; side = buy };
  previous = null_index;
  next = null_index;
}

abbrev pool : OrderPool
pool = OrderPool.new 4 (λ i. resting)

pool-IsValid : OrderPool.IsValid 4 pool
pool-IsValid = (OrderPool.new-IsValid 4 (λ i. resting) (omega arith)).0

allocate_lem_example :
    (i : ℕ) × (p' : OrderPool) × (OrderPool.allocate resting pool ≡ some (i, p'))
    × (i < 4)
    × IsFree pool i
    × (¬ IsFree p' i)
    × (OrderPool.get i p' ≡ resting)
    × ((j : ℕ) → j ≢ i → OrderPool.get j p' ≡ OrderPool.get j pool)
    × ((j : ℕ) → j ≢ i → IsFree pool j ↔ IsFree p' j)
    × OrderPool.IsValid 4 p'
unfolding OrderPool.new
allocate_lem_example = allocate_lem 4 resting pool pool-IsValid (omega arith)

-- the pool after an index was taken
abbrev used : OrderPool
used = record { orders = put (λ i. resting) 3 resting; free_stack = λ i. i; top_index = 3 }

used-IsValid : OrderPool.IsValid 4 used
used-IsValid = record {
  fits = omega arith;
  top_in = omega arith;
  range = λ t lt. omega arith;
  distinct = λ s t hs ht e. e;
}

free_lem_example :
    let p' = OrderPool.free 3 used in
    IsFree p' 3
    × ((j : ℕ) → j ≢ 3 → IsFree used j ↔ IsFree p' j)
    × ((j : ℕ) → OrderPool.get j p' ≡ OrderPool.get j used)
    × OrderPool.IsValid 4 p'
free_lem_example =
    free_lem 4 3 used used-IsValid (omega arith) (omega arith) (λ f. omega (arith, f.1, f.2))
