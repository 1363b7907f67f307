-- ===== src/Net/Willing.antt =====
-- Sends and receives through a socket that moves at least a byte at each call.
use hft_architecture.Base.{
  ℕ, zero, suc, ◌+◌, ◌-◌, ◌≤◌, ◌<◌, min, ◌≡◌, refl, ap, ap₂, subst, ◌∙◌, ◌⊎◌, inl, inr, false, none,
  some, List, [], ◌∷◌, ◌++◌, arith, ltb, ◌==◌, ==_of_ne, Bool-cases, length, take, drop,
  length-append, length-take, length-drop, take-append, drop-append,
}
use hft_architecture.Net.Ranges.{recv_range_lem}
use hft_architecture.Net.{
  Answer, took, failed, again, slice, Sent, sent_more, send_range, Received, recv_range, success,
  write_at,
}

-- every answer takes something
abbrev pub Willing : List Answer → Type 0
Willing [] = Unit
Willing (failed e ∷ answers) = ⊥
Willing (took n ∷ answers) = (0 < n) × Willing answers

pub Willing-cases : (answers : List Answer) → Willing answers ⊎ (¬ Willing answers)
Willing-cases [] = inl tt
Willing-cases (failed e ∷ answers) = inr (λ w. w)
Willing-cases (took zero ∷ answers) = inr (λ w. absurd (omega (arith, w.0)))
Willing-cases (took (suc n) ∷ answers) = elim (Willing-cases answers) [
  | inl w ↦ inl (omega arith, w)
  | inr h ↦ inr (λ w. h w.1)
]

-- Each answer that was used took a byte at least, and the send stops only when none is left.
pub record WillingLem (answers : List Answer) (r : Sent) : Type 0 where
  pub willing : Willing r.answers
  pub pays : length answers ≤ length r.answers + length r.out
  pub stops : (r.error ≡ none) ⊎ ((r.error ≡ some again) × (r.answers ≡ []))

length-slice :
    (start n : ℕ) (buffer : List ℕ)
    → start + n ≤ length buffer
    → length (slice start (start + n) buffer) ≡ n
length-slice start n buffer fits =
    ap length (ap (λ m. take m (drop start buffer)) (omega arith))
    ∙ length-take n (drop start buffer) (omega (arith, length-drop start buffer))

sent_more-Willing :
    (start n k : ℕ) (buffer : List ℕ) (answers : List Answer) (rest : Sent)
    → 0 < n
    → start + n ≤ length buffer
    → WillingLem answers rest
    → WillingLem (took k ∷ answers) (sent_more start n buffer rest)
sent_more-Willing start n k buffer answers rest pos fits w = record {
  willing = w.willing;
  pays = omega (
    arith,
    w.pays,
    length-append (slice start (start + n) buffer) rest.out,
    length-slice start n buffer fits,
  );
  stops = w.stops;
}

pub send_range-Willing :
    (answers : List Answer) (buffer : List ℕ) (start end : ℕ)
    → start ≤ end
    → end ≤ length buffer
    → Willing answers
    → WillingLem answers (send_range answers buffer start end)
unfolding send_range
send_range-Willing [] buffer start end le fits w = elim (Bool-cases (ltb start end)) [
  | inl h ↦ rw h (record { willing = tt; pays = omega arith; stops = inr (refl, refl) })
  | inr h ↦ rw h (record { willing = tt; pays = omega arith; stops = inl refl })
]
send_range-Willing (failed e ∷ answers) buffer start end le fits w = absurd w
send_range-Willing (took k ∷ answers) buffer start end le fits (pos, w) =
    let n = min k (end - start) in
    let rest = send_range-Willing answers buffer (start + n) end (omega arith) fits w in
    elim (Bool-cases (ltb start end)) [
      | inl h ↦
          let lt : start < end = ground arith in
          let some_taken : 0 < n = omega arith in
          let some_byte : (n == 0) ≡ false = ground arith in
          rw (h, some_byte)
            (sent_more-Willing start n k buffer answers _ some_taken (omega arith) rest)
      | inr h ↦ rw h (record { willing = (pos, w); pays = omega arith; stops = inl refl })
    ]

-- The end is reached, at the price of an answer for each byte at most.
pub record AllReceived (answers : List Answer) (size : ℕ) (r : Received) : Type 0 where
  pub willing : Willing r.answers
  pub pays : length answers ≤ length r.answers + size
  pub whole : r.status ≡ success

some_more :
    (k n size : ℕ) (answers : List Answer) (r : Received)
    → 0 < n
    → n ≤ size
    → AllReceived answers (size - n) r
    → AllReceived (took k ∷ answers) size r
some_more k n size answers r pos le a = record {
  willing = a.willing;
  pays = omega (arith, a.pays);
  whole = a.whole;
}

pub recv_range-Willing :
    (answers : List Answer) (pending buffer : List ℕ) (start end : ℕ)
    → start ≤ end
    → end - start ≤ length pending
    → end - start ≤ length answers
    → Willing answers
    → AllReceived answers (end - start) (recv_range answers pending buffer start end)
unfolding recv_range
recv_range-Willing [] pending buffer start end le there enough w =
    let arrived : ltb start end ≡ false = ground arith in
    rw arrived (record { willing = tt; pays = omega arith; whole = refl })
recv_range-Willing (failed e ∷ answers) pending buffer start end le there enough w = absurd w
recv_range-Willing (took k ∷ answers) pending buffer start end le there enough (pos, w) =
    let n = min (min k (end - start)) (length pending) in
    elim (Bool-cases (ltb start end)) [
      | inl h ↦
          let lt : start < end = ground arith in
          let some_byte : (n == 0) ≡ false = ==_of_ne n 0 (omega arith) in
          let rest =
            recv_range-Willing answers (drop n pending) (write_at start (take n pending) buffer)
              (start + n) end (omega arith) (omega (arith, length-drop n pending)) (omega arith)
              w in
          rw (h, some_byte)
            (some_more k n (end - start) answers _ (omega arith) (omega arith) (
              subst
                (λ m. AllReceived answers m (
                  recv_range answers (drop n pending) (write_at start (take n pending) buffer)
                    (start + n) end))
                (omega arith) rest))
      | inr h ↦ rw h (record { willing = (pos, w); pays = omega arith; whole = refl })
    ]

-- Bytes that are pending are received whole.
pub record Exactly (xs more buffer : List ℕ) (start : ℕ) (answers : List Answer) (r : Received)
    : Type 0 where
  pub whole : r.status ≡ success
  pub wrote : r.buffer ≡ write_at start xs buffer
  pub left : r.pending ≡ more
  pub willing : Willing r.answers
  pub pays : length answers ≤ length r.answers + length xs

pub recv_range-Exactly :
    (answers : List Answer) (xs more pending buffer : List ℕ) (start end : ℕ)
    → pending ≡ xs ++ more
    → start + length xs ≡ end
    → end ≤ length buffer
    → length xs ≤ length answers
    → Willing answers
    → Exactly xs more buffer start answers (recv_range answers pending buffer start end)
recv_range-Exactly answers xs more pending buffer start end there size room enough w =
    let len = ap length there ∙ length-append xs more in
    let l = recv_range_lem answers pending buffer start end (omega arith) room in
    let a =
      recv_range-Willing answers pending buffer start end (omega arith) (omega (arith, len))
        (omega arith) w in
    let r = recv_range answers pending buffer start end in
    let at_end : r.start - start ≡ length xs = omega (arith, l.complete.0 a.whole) in
    record {
      whole = a.whole;
      wrote =
          l.wrote
          ∙ ap (λ t. write_at start t buffer)
              (ap₂ take at_end there ∙ take-append xs more (length xs) refl);
      left = l.left ∙ ap₂ drop at_end there ∙ drop-append xs more (length xs) refl;
      willing = a.willing;
      pays = omega (arith, a.pays);
    }
