-- ===== src/Strategy/Engine/Shows.antt =====
-- Whether the best prices that the engine shows are those of its book.
use hft_architecture.Base.{
  ℕ, suc, ◌+◌, ◌≤◌, ◌<◌, ◌≡◌, refl, sym, ap, subst, ◌∙◌, ◌⊎◌, inl, inr, true, false, Option, none,
  some, List, [], ◌∷◌, arith, ◌==◌, ==_of_ne, length,
}
use hft_architecture.Order.{MarketEvent}
use hft_architecture.Book.State.{
  BookState, OrderSnapshot, Update, no_change, new_best_bid, new_best_offer, Hashes, execute, ◌>>=◌,
}
use hft_architecture.SeqLock.{write, try_read, locked}
use hft_architecture.Strategy.Engine.{OrderBookEngine, on_event, run, show}
use hft_architecture.Strategy.Engine.Best.{Reports}
use hft_architecture.Strategy.Engine.Reports.{execute-Reports}

-- After at most `n` events the engine has shown nothing, and the best prices are those of the start;
-- or it shows those of the book.
data Shown (start : OrderSnapshot) (n : ℕ) (e : OrderBookEngine) : Type 0 where
  nothing_yet : e.public_bbo.generation ≡ locked → e.state.bbo ≡ start → Shown start n e
  up_to_date : e.public_bbo.generation < n → e.public_bbo.value ≡ e.state.bbo → Shown start n e

-- the same of a result, if there is one
AfterRun : OrderSnapshot → ℕ → Option OrderBookEngine → Type 0
AfterRun start n none = Unit
AfterRun start n (some e) = Shown start n e

show-Shown :
    (start : OrderSnapshot) (n : ℕ) (e : OrderBookEngine) (m : Option (Update × BookState))
    → n < locked
    → Shown start n e
    → Reports e.state.bbo m
    → AfterRun start (suc n) (m >>= λ (u, s). some (show u s e))
unfolding Reports AfterRun write
show-Shown start n e none small sh r = tt
show-Shown start n e (some (no_change, s)) small (nothing_yet g b) r = nothing_yet g (r ∙ b)
show-Shown start n e (some (no_change, s)) small (up_to_date g v) r =
    up_to_date (omega arith) (v ∙ sym r)
show-Shown start n e (some (new_best_bid, s)) small (nothing_yet g b) r =
    up_to_date (omega arith) refl
show-Shown start n e (some (new_best_bid, s)) small (up_to_date g v) r =
    up_to_date (omega arith) refl
show-Shown start n e (some (new_best_offer, s)) small (nothing_yet g b) r =
    up_to_date (omega arith) refl
show-Shown start n e (some (new_best_offer, s)) small (up_to_date g v) r =
    up_to_date (omega arith) refl

module _ (h : Hashes) where
  run-Shown :
      (start : OrderSnapshot) (n : ℕ) (events : List MarketEvent) (e : OrderBookEngine)
      → n + length events ≤ locked
      → Shown start n e
      → AfterRun start (n + length events) (run h events e)
  unfolding run on_event AfterRun
  run-Shown start n [] e small sh = subst (λ k. Shown start k e) (omega arith) sh
  run-Shown start n (event ∷ events) e small sh =
      onward (on_event h event e) (λ e'. run-Shown start (suc n) events e' (omega arith))
        (show-Shown start n e (execute h event e.state) (omega arith) sh
          (execute-Reports h event e.state))
    where
      onward :
          (m : Option OrderBookEngine)
          → ((e' : OrderBookEngine)
              → Shown start (suc n) e'
              → AfterRun start (suc n + length events) (run h events e'))
          → AfterRun start (suc n) m
          → AfterRun start (n + suc (length events)) (m >>= run h events)
      onward none later k = tt
      onward (some e') later k =
          subst (λ i. AfterRun start i (run h events e')) (omega arith) (later e' k)

  -- From a lock that nothing was written to, and over any events that the book takes, fewer than its
  -- generations: what the other threads read of the engine is the best bid and offer of its book after
  -- the last event; or they read nothing, and no event has changed the best bid and offer.
  pub run-shows :
      (events : List MarketEvent) (e e' : OrderBookEngine)
      → e.public_bbo.generation ≡ locked
      → length events < locked
      → run h events e ≡ some e'
      → ((try_read e'.public_bbo ≡ none) × (e'.state.bbo ≡ e.state.bbo))
        ⊎ (try_read e'.public_bbo ≡ some e'.state.bbo)
  unfolding try_read AfterRun
  run-shows events e e' fresh small ran = read (
      subst (AfterRun e.state.bbo (length events)) ran (
        subst (λ k. AfterRun e.state.bbo k (run h events e)) (omega arith)
          (run-Shown e.state.bbo 0 events e (omega arith) (nothing_yet fresh refl))))
    where
      read :
          Shown e.state.bbo (length events) e'
          → ((try_read e'.public_bbo ≡ none) × (e'.state.bbo ≡ e.state.bbo))
            ⊎ (try_read e'.public_bbo ≡ some e'.state.bbo)
      read (nothing_yet g b) =
          let is : (e'.public_bbo.generation == locked) ≡ true = ground arith in inl (rw is refl, b)
      read (up_to_date g v) =
          let is_not : (e'.public_bbo.generation == locked) ≡ false =
            ==_of_ne e'.public_bbo.generation locked (omega arith) in
          inr (rw is_not (ap some v))
