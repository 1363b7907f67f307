-- ===== src/Exchange/Simulator.antt =====
-- The loop in `run` of ExchangeSimulator, of includes/exchange/exchange-simulator.hpp and
-- src/exchange/exchange-simulator.cpp: each market event is given its number, kept for a retransmit,
-- and broadcast. `storage n` is what the buffer of the message `n` held, and `broadcast` has the
-- messages that were given to the broadcaster, oldest first, whatever came of them.
pub mod Packets
mod Tests
use hft_architecture.Base.{ℕ, zero, suc, ◌+◌, Option, none, some, List, [], ◌∷◌, ◌++◌}
use hft_architecture.Order.{MarketEvent}
use hft_architecture.Wire.Message.{EncodedMessage, message}
use hft_architecture.Wire.Sequencer.{Sequencer, generate_message}
use hft_architecture.Wire.Sequencer
use hft_architecture.Exchange.Cache.{CircularCache, put_item, fresh}
use hft_architecture.Exchange.Retransmit.{cache_size, ◌>>=◌}

pub record ExchangeSimulator : Type 0 where
  pub sequencer : Sequencer
  pub retransmit_cache : CircularCache EncodedMessage
  pub broadcast : List (List ℕ)

abbrev pub fresh_exchange : (ℕ → EncodedMessage) → ExchangeSimulator
fresh_exchange blank = record {
  sequencer = Sequencer.start;
  retransmit_cache = fresh blank;
  broadcast = [];
}

-- what is done with a message that was built
abbrev pub send_out :
    Option EncodedMessage × Sequencer → ExchangeSimulator → Option ExchangeSimulator
send_out (none, sequencer) s = none
send_out (some m, sequencer) s = some (record {
  sequencer = sequencer;
  retransmit_cache = put_item cache_size m s.retransmit_cache;
  broadcast = s.broadcast ++ (message m ∷ []);
})

module _ (storage : ℕ → List ℕ) (events : ℕ → MarketEvent) where
  -- a round, with the event that it waited for
  unfoldable pub on_market_event : MarketEvent → ExchangeSimulator → Option ExchangeSimulator
  on_market_event event s =
      send_out (generate_message (storage s.sequencer.sequencer_counter) s.sequencer event) s

  -- the events from the `n`-th on, `count` of them
  unfoldable pub run : ℕ → ℕ → ExchangeSimulator → Option ExchangeSimulator
  run n zero s = some s
  run n (suc count) s = on_market_event (events n) s >>= λ s'. run (n + 1) count s'
