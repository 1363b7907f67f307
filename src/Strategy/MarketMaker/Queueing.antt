-- ===== src/Strategy/MarketMaker/Queueing.antt =====
-- The maker and its buffer of outgoing requests: room for what it queues, and no failed assertion.
use hft_architecture.Base.{
  ◌+◌, ◌≤◌, ◌<◌, ◌≡◌, refl, sym, ap, ◌∙◌, ◌⊎◌, inl, inr, true, false, some, List, [], ◌∷◌, ◌++◌,
  append_assoc, append-nil, arith, ltb, if◌then◌else◌, ==_of_ne, Bool-cases, length, length-append,
  sub64,
}
use hft_architecture.Strategy.{OutboundOrderRequest}
use native.Mathlib.Nat.{dvd_of_mod-eq-zero}
use hft_architecture.Ring.SingleThread as Ring
use hft_architecture.Ring.SingleThread.Laws.{
  IsValid, contents, try_push-IsValid, try_push_refines, length-contents,
}
use hft_architecture.Book.State.{◌>>=◌}
use hft_architecture.Strategy.MarketMaker.{
  PassiveMarketMaker, PlacedOrder, StrategyOrderBuffer, buffer_size, cancel_of, count, placed_count,
  queue_cancel, queue_cancel_orders,
}
use hft_architecture.Ring.Queue
use hft_architecture.Ring.Window.{IsCapacity}

pub size-IsCapacity : IsCapacity buffer_size
size-IsCapacity = record {
  nonzero = omega arith;
  small = omega arith;
  divides = dvd_of_mod-eq-zero buffer_size refl;
}

-- a push into a buffer with room
push_room :
    (x : OutboundOrderRequest) (b : StrategyOrderBuffer)
    → IsValid buffer_size b
    → length (contents buffer_size b) < buffer_size
    → let (done, b') = Ring.try_push buffer_size x b in
      (done ≡ true)
      × (contents buffer_size b' ≡ contents buffer_size b ++ (x ∷ []))
      × IsValid buffer_size b'
unfolding Queue.enqueue
push_room x b v room =
    let step = try_push_refines size-IsCapacity x b v in
    let open_queue =
      step
      ∙ ap
          (λ full.
            if full
            then (false, contents buffer_size b)
            else (true, contents buffer_size b ++ (x ∷ [])))
          (==_of_ne (length (contents buffer_size b)) buffer_size (omega arith)) in
    (ap (λ r. r.0) open_queue, ap (λ r. r.1) open_queue, try_push-IsValid size-IsCapacity x b v)

-- the requests that cancel what is placed
abbrev pub cancels : PlacedOrder → List OutboundOrderRequest
cancels o = if o.placed then cancel_of o ∷ [] else []

queue_cancel_lem :
    (o : PlacedOrder) (b : StrategyOrderBuffer)
    → IsValid buffer_size b
    → length (contents buffer_size b) + count o.placed ≤ buffer_size
    → (o' : PlacedOrder) × (b' : StrategyOrderBuffer) × (queue_cancel o b ≡ some (o', b'))
      × (o'.placed ≡ false)
      × (contents buffer_size b' ≡ contents buffer_size b ++ cancels o)
      × IsValid buffer_size b'
unfolding queue_cancel
queue_cancel_lem o b v room = elim (Bool-cases o.placed) [
  | inl e ↦
      let (done, held, v') = push_room (cancel_of o) b v (ground arith) in
      rw (e, done) (_, _, refl, refl, held, v')
  | inr e ↦
      rw e
        (record o { placed = false }, b, refl, refl, sym (append-nil (contents buffer_size b)), v)
]

-- Whether both orders are cancelled is a matter of room alone. With room for the requests, each
-- placed order has its cancel request queued after what the buffer held, the bid's first, and none
-- is placed after; without room nothing changes. No assertion fails.
pub queue_cancel_orders_lem :
    (m : PassiveMarketMaker) (b : StrategyOrderBuffer)
    → IsValid buffer_size b
    → (m' : PassiveMarketMaker) × (b' : StrategyOrderBuffer) × IsValid buffer_size b'
      × (((length (contents buffer_size b) + placed_count m ≤ buffer_size)
            × (queue_cancel_orders m b ≡ some (true, m', b'))
            × (placed_count m' ≡ 0)
            × (contents buffer_size b'
                ≡ contents buffer_size b ++ (cancels m.buy_order ++ cancels m.sell_order)))
          ⊎ ((buffer_size < length (contents buffer_size b) + placed_count m)
              × (queue_cancel_orders m b ≡ some (false, m, b))))
unfolding queue_cancel_orders Ring.available
queue_cancel_orders_lem m b v =
    elim (Bool-cases (ltb (Ring.available buffer_size b) (placed_count m))) [
      | inl full ↦ rw full (m, b, v, inr (ground (arith, held, v), refl))
      | inr room ↦
          let (bought, b₁, run₁, off₁, held₁, v₁) =
            queue_cancel_lem m.buy_order b v (ground (arith, held, v)) in
          let (sold, b₂, run₂, off₂, held₂, v₂) = queue_cancel_lem m.sell_order b₁ v₁ (
            ground (
              arith,
              held,
              v,
              held₁,
              ap length held₁,
              length-append (contents buffer_size b) (cancels m.buy_order),
            )) in
          rw (room, run₁, ◌>>=◌, run₂)
            (
              _,
              _,
              v₂,
              inl (
                ground (arith, held, v),
                refl,
                rw (off₁, off₂) refl,
                held₂
                    ∙ ap (λ l. l ++ cancels m.sell_order) held₁
                    ∙ append_assoc (contents buffer_size b) _ _,
              ),
            )
    ]
  where
    held : length (contents buffer_size b) ≡ sub64 b.head b.tail
    held = length-contents size-IsCapacity b
