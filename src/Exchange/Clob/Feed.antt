-- ===== src/Exchange/Clob/Feed.antt =====
-- The events that the limit book publishes, against the book that it keeps.
use hft_architecture.Order.{MarketEvent}
use hft_architecture.Book.State
use hft_architecture.Book.State.{BookState, Hashes, ◌>>=◌}
use hft_architecture.Exchange.Clob.{Clob}
use mathlib.Core.Option.{some-injective, some-ne-none}
use hft_architecture.Base.{
  ◌≡◌, refl, sym, ap, ◌∙◌, Option, none, some, List, [], ◌∷◌, ◌++◌, append_assoc, append-nil,
}

-- A book that is kept from the published events alone, as a strategy keeps it.
unfoldable pub replay : Hashes → List MarketEvent → BookState → Option BookState
replay h [] s = some s
replay h (event ∷ events) s = State.execute h event s >>= λ r. replay h events r.1

-- What was published on the way from `s` to `s'` takes the one book to the other.
pub record Follows (h : Hashes) (s s' : Clob) : Type 0 where
  pub events : List MarketEvent
  pub sent : s'.published ≡ s.published ++ events
  pub same_book : replay h events s.state ≡ some s'.state

bind_cases :
    {A B C : Type 0} (o : Option A) {f : A → Option B} {b : B}
    → (o >>= f) ≡ some b
    → ((a : A) → o ≡ some a → f a ≡ some b → C)
    → C
bind_cases none e k = absurd (some-ne-none _ (sym e))
bind_cases (some a) e k = k a refl e

replay-append :
    (h : Hashes) (xs ys : List MarketEvent) (s t u : BookState)
    → replay h xs s ≡ some t
    → replay h ys t ≡ some u
    → replay h (xs ++ ys) s ≡ some u
unfolding replay
replay-append h [] ys s t u e f = rw (some-injective s t e) f
replay-append h (x ∷ xs) ys s t u e f =
    bind_cases (State.execute h x s) e
      (λ r run rest. rw (run, ◌>>=◌) (replay-append h xs ys r.1 t u rest f))

pub Follows-refl :
    (h : Hashes) (s s' : Clob) → s'.published ≡ s.published → s'.state ≡ s.state → Follows h s s'
unfolding replay
Follows-refl h s s' sent same = record {
  events = [];
  sent = sent ∙ sym (append-nil s.published);
  same_book = ap some (sym same);
}

pub Follows-trans : (h : Hashes) (s t u : Clob) → Follows h s t → Follows h t u → Follows h s u
Follows-trans h s t u a b = record {
  events = a.events ++ b.events;
  sent = b.sent ∙ ap (λ l. l ++ b.events) a.sent ∙ append_assoc s.published a.events b.events;
  same_book = replay-append h a.events b.events s.state t.state u.state a.same_book b.same_book;
}

-- One event that is published, and executed by the book.
pub Follows-event :
    (h : Hashes) (event : MarketEvent) (s t : Clob) (u : State.Update)
    → t.published ≡ s.published ++ (event ∷ [])
    → State.execute h event s.state ≡ some (u, t.state)
    → Follows h s t
unfolding replay
Follows-event h event s t u sent run = record {
  events = event ∷ [];
  sent = sent;
  same_book = rw (run, ◌>>=◌) refl;
}
