-- ===== src/Book/State/Events/Add.antt =====
-- An order that is added.
use hft_architecture.Base.{
  ℕ, ◌+◌, ◌<◌, ◌≡◌, refl, ap, ◌∙◌, inl, inr, Option, none, some, arith, ◌==◌, if◌then◌else◌,
  Option-cases,
}
use hft_architecture.Order.{Order, MarketEvent, RestingOrder, null_index}
use hft_architecture.Book.HashMap
use hft_architecture.Book.HashMap.Update.{add_lem, add-ne-none}
use hft_architecture.Book.OrderPool
use hft_architecture.Book.State.{
  BookState, Hashes, max_concurrent_orders, order_cap, level_of, index_of, PriceLevel, Update,
  join_level, add, ◌>>=◌,
}
use hft_architecture.Book.State.Bbo.{total_of}
use hft_architecture.Book.State.Events.{Consistent}
use hft_architecture.Book.State.Events.Enter.{HasRoom, Placeable, Entered, finish, opens, joins}

-- What a new order needs: that, an id that is not in use, room for it, and an index of the order pool
-- that is free.
pub record Addable (h : Hashes) (s : BookState) (o : Order) : Type 0 where
  pub place : Placeable h s o
  pub fresh : index_of h s o.order_id ≡ none
  pub id_room : HasRoom order_cap s.order_map
  pub pool_valid : OrderPool.IsValid max_concurrent_orders s.order_pool
  pub pool_room : 0 < s.order_pool.top_index

-- The order was added: the pool has it at an index that was free, under which its id, and no other, is
-- found now, and the total at its price, and at no other, grew by its quantity.
pub record IsAdded (h : Hashes) (o : Order) (s s' : BookState) : Type 0 where
  pub index : ℕ
  pub in_range : index < max_concurrent_orders
  pub was_free : OrderPool.IsFree s.order_pool index
  pub stored : (OrderPool.get index s'.order_pool).order ≡ o
  pub found :
      (id : ℕ) → index_of h s' id ≡ (if id == o.order_id then some index else index_of h s id)
  pub totals :
      (q : ℕ)
      → total_of (level_of h s' q) ≡ (
          if q == o.price
          then total_of (level_of h s o.price) + o.quantity
          else total_of (level_of h s q))

-- An order that may enter the book is added, and leaves the book consistent. It may enter when its
-- price is not on the other side and its quantity is not zero, when its price and the new total at its
-- price fit in 32 bits, when its id is not in use, and when the maps have room and the pool, a valid
-- one, has a free index. It is added: the pool has it at an index that was free, the index has its id
-- there and every other id as before, and the total of its price's level, and of no other, grew by its
-- quantity. Consistent is a book where each side is sorted, has a level with a quantity at each of its
-- prices, and its best price is the first of them with the total of that level.
pub add-Consistent :
    (h : Hashes) (event : MarketEvent) (s : BookState)
    → Consistent h s
    → Addable h s event.order
    → (u : Update) × (s' : BookState) × (add h event s ≡ some (u, s'))
      × Consistent h s'
      × IsAdded h event.order s s'
unfolding add
add-Consistent h event s c a = elim (Option-cases added_ids) [
  | inl full ↦ absurd (
      add-ne-none h.hash_id (omega arith) s.order_map o.order_id a.id_room.0 taken.0 a.id_room.1
        a.id_room.2 full)
  | inr (ids, e) ↦
      let (valid, changed) =
        add_lem h.hash_id (omega arith) s.order_map ids o.order_id taken.0 c.ids_valid a.fresh e in
      let c' : Consistent h (entered ids) = record {
        levels_valid = c.levels_valid;
        ids_valid = valid;
        sides = c.sides;
      } in
      let a' : Placeable h (entered ids) o = record {
        price_in = a.place.price_in;
        positive = a.place.positive;
        fits = a.place.fits;
        uncrossed = a.place.uncrossed;
        level_room = a.place.level_room;
      } in
      enter ids c' a' e changed (level_of h (entered ids) o.price) refl
]
  where
    o : Order
    o = event.order

    resting : RestingOrder
    resting = record { order = o; previous = null_index; next = null_index }

    taken :
        (i : ℕ) × (p : OrderPool.OrderPool) × (OrderPool.allocate resting s.order_pool
          ≡ some (i, p))
        × (i < max_concurrent_orders)
        × OrderPool.IsFree s.order_pool i
        × (OrderPool.get i p ≡ resting)
    taken =
        let (i, p, run, lt, free, _, stored, _, _, _) =
          OrderPool.allocate_lem max_concurrent_orders resting s.order_pool a.pool_valid
            a.pool_room in
        (i, p, run, lt, free, stored)

    added_ids : Option (HashMap.ClosedHashMap ℕ)
    added_ids = HashMap.add h.hash_id order_cap o.order_id taken.0 s.order_map

    entered : HashMap.ClosedHashMap ℕ → BookState
    entered ids = record s { order_pool = taken.1; order_map = ids }

    Indexed : HashMap.ClosedHashMap ℕ → Type 0
    Indexed ids =
        (id : ℕ)
        → HashMap.find h.hash_id order_cap id ids
          ≡ (if id == o.order_id then some taken.0 else index_of h s id)

    added_lem :
        (ids : HashMap.ClosedHashMap ℕ) (s' : BookState)
        → Indexed ids
        → Entered h o taken.0 (entered ids) s'
        → IsAdded h o s s'
    added_lem ids s' changed n = record {
      index = taken.0;
      in_range = taken.3;
      was_free = taken.4;
      stored = n.same_order ∙ ap (λ r. r.order) taken.5;
      found = λ id. rw n.same_ids (changed id);
      totals = n.grown;
    }

    enter :
        (ids : HashMap.ClosedHashMap ℕ)
        → Consistent h (entered ids)
        → Placeable h (entered ids) o
        → added_ids ≡ some ids
        → Indexed ids
        → (level : Option PriceLevel) → level_of h (entered ids) o.price ≡ level
        → (u : Update) × (s' : BookState) × (add h event s ≡ some (u, s'))
          × Consistent h s'
          × IsAdded h o s s'
    enter ids c' a' e changed none q =
        let (t, run, ok, n) = opens h o taken.0 (entered ids) c' a' q in
        (
          (finish o t).0,
          (finish o t).1,
          rw (taken.2, ◌>>=◌, e, q, run),
          ok,
          added_lem ids (finish o t).1 changed n,
        )
    enter ids c' a' e changed (some level) q =
        let t = join_level h o taken.0 level (entered ids) in
        let (ok, n) = joins h o taken.0 (entered ids) c' a' level q in
        (
          (finish o t).0,
          (finish o t).1,
          rw (taken.2, ◌>>=◌, e, q),
          ok,
          added_lem ids (finish o t).1 changed n,
        )
