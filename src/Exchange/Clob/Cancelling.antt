-- ===== src/Exchange/Clob/Cancelling.antt =====
-- A cancel request, on a consistent book.
use hft_architecture.Base.{
  ℕ, suc, ◌≡◌, refl, inl, inr, Bool, true, not, ◌&&◌, Option, some, [], ◌∷◌, ◌++◌, if◌then◌else◌,
  Bool-cases,
}
use hft_architecture.Book.State
use hft_architecture.Book.State.{Hashes, ◌>>=◌}
use hft_architecture.Book.State.Events.{Consistent}
use hft_architecture.Book.State.Events.Trade.{Known, cancel-Consistent}
use hft_architecture.Exchange.Clob.{Clob, OrderRequest, cancel_event, cancel_order}
use hft_architecture.Exchange.Clob.Feed.{Follows, Follows-refl, Follows-event}

module _ (h : Hashes) (stopped : ℕ → Bool) where
  -- What a cancel request comes to: whether there was such an order, and a book that is consistent and
  -- follows from what was published, which is the cancel event if there was one and no stop was
  -- requested, and nothing otherwise.
  pub record Cancelled (request : OrderRequest) (s : Clob) (result : Option (Bool × Clob))
      : Type 0 where
    pub after : Clob
    pub returned : result ≡ some (State.order_exists h request.order_id s.state, after)
    pub consistent : Consistent h after.state
    pub follows : Follows h s after
    pub sent : after.published ≡ (
        if State.order_exists h request.order_id s.state && not (stopped s.asked)
        then s.published ++ (cancel_event request.order_id ∷ [])
        else s.published)

  -- A cancel request on a consistent book, whose order, if its id is in the index, rests on the book.
  -- It returns whether there is such an order. If there is, and no stop was requested, the cancel event
  -- is published and nothing else, and the book is the one that the event leads to; otherwise nothing is
  -- published and the book is as it was. Either way the book is consistent.
  pub cancel_order-cancels :
      (request : OrderRequest) (s : Clob)
      → Consistent h s.state
      → (State.order_exists h request.order_id s.state ≡ true → Known h s.state request.order_id)
      → Cancelled request s (cancel_order h stopped request s)
  unfolding cancel_order State.execute
  cancel_order-cancels request s c known =
      elim (Bool-cases (State.order_exists h request.order_id s.state)) [
        | inr e ↦ record {
          after = s;
          returned = rw e refl;
          consistent = c;
          follows = Follows-refl h s s refl refl;
          sent = rw e refl;
        }
        | inl e ↦ elim (Bool-cases (stopped s.asked)) [
          | inl stop ↦ record {
            after = record s { asked = suc s.asked };
            returned = rw (e, stop) refl;
            consistent = c;
            follows = Follows-refl h s _ refl refl;
            sent = rw (e, stop) refl;
          }
          | inr go ↦
              let (u, b', run, ok) = cancel-Consistent h request.order_id s.state c (known e) in
              let event = cancel_event request.order_id in
              record {
                after = record s {
                  asked = suc s.asked;
                  state = b';
                  published = s.published ++ (event ∷ []);
                };
                returned = rw (e, go, run, ◌>>=◌) refl;
                consistent = ok;
                follows = Follows-event h event s _ u refl run;
                sent = rw (e, go) refl;
              }
        ]
      ]
