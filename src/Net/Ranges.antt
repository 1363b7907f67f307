-- ===== src/Net/Ranges.antt =====
-- The loops over partial sends and receives, taken whole.
use hft_architecture.Base.{
  ℕ, zero, suc, ◌+◌, ◌-◌, ◌≤◌, ◌<◌, min, ◌≡◌, refl, sym, ap, ap₂, ◌∙◌, ◌↔◌, inl, inr, none, some,
  List, [], ◌∷◌, ◌++◌, append_assoc, arith, ltb, ◌==◌, Bool-cases, length, take, drop,
  length-append, length-take, length-drop, take-append, drop-past,
}
use hft_architecture.Net.{
  Errno, Answer, took, failed, again, pipe, slice, write_at, Sent, send_range, ReceiveStatus,
  success, Received, recv_range,
}

suc-add : (m n : ℕ) → suc m + n ≡ suc (m + n)
suc-add m n = omega arith

module _ {ℓ} {A : Type ℓ} where
  take-nil : (n : ℕ) → take {A = A} n [] ≡ []
  take-nil zero = refl
  take-nil (suc n) = refl

  drop-nil : (n : ℕ) → drop {A = A} n [] ≡ []
  drop-nil zero = refl
  drop-nil (suc n) = refl

  take-drop : (n : ℕ) (xs : List A) → take n xs ++ drop n xs ≡ xs
  take-drop zero xs = refl
  take-drop (suc n) [] = refl
  take-drop (suc n) (x ∷ xs) = ap (λ t. x ∷ t) (take-drop n xs)

  pub drop-drop : (m n : ℕ) (xs : List A) → drop n (drop m xs) ≡ drop (m + n) xs
  drop-drop zero n xs = ap (λ k. drop k xs) (omega arith)
  drop-drop (suc m) n [] = drop-nil n ∙ sym (drop-nil (suc m + n))
  drop-drop (suc m) n (x ∷ xs) = rw (suc-add m n) (drop-drop m n xs)

  pub take-take-drop : (m n : ℕ) (xs : List A) → take m xs ++ take n (drop m xs) ≡ take (m + n) xs
  take-take-drop zero n xs = ap (λ k. take k xs) (omega arith)
  take-take-drop (suc m) n [] = take-nil n ∙ sym (take-nil (suc m + n))
  take-take-drop (suc m) n (x ∷ xs) = rw (suc-add m n) (ap (λ t. x ∷ t) (take-take-drop m n xs))

-- two slices that meet are one
pub slice-slice :
    (s m e : ℕ) (b : List ℕ) → s ≤ m → m ≤ e → slice s m b ++ slice m e b ≡ slice s e b
slice-slice s m e b lo hi =
    ap (λ t. slice s m b ++ take (e - m) t)
      (sym (drop-drop s (m - s) b ∙ ap (λ k. drop k b) (omega arith)))
    ∙ take-take-drop (m - s) (e - m) (drop s b)
    ∙ ap (λ k. take k (drop s b)) (omega arith)

pub slice_self : (s : ℕ) (b : List ℕ) → slice s s b ≡ []
slice_self s b = let same : s - s ≡ 0 = omega arith in ap (λ k. take k (drop s b)) same

-- How far a send came: what went out is what stood between the two starts, and it came to the end
-- exactly if there is no error.
pub record SentLem (buffer : List ℕ) (start end : ℕ) (r : Sent) : Type 0 where
  pub on : start ≤ r.start
  pub within : r.start ≤ end
  pub went : r.out ≡ slice start r.start buffer
  pub complete : (r.error ≡ none) ↔ (r.start ≡ end)

stopped :
    (buffer : List ℕ) (start end : ℕ) (e : Errno) (answers : List Answer)
    → start < end
    → SentLem buffer start end
        (record { error = some e; start = start; out = []; answers = answers })
stopped buffer start end e answers lt = record {
  on = omega arith;
  within = omega arith;
  went = sym (slice_self start buffer);
  complete = ((λ q. cc), (λ q. absurd (omega arith)));
}

arrived :
    (buffer : List ℕ) (start end : ℕ) (answers : List Answer)
    → start ≡ end
    → SentLem buffer start end (record { error = none; start = start; out = []; answers = answers })
arrived buffer start end answers same = record {
  on = omega arith;
  within = omega arith;
  went = sym (slice_self start buffer);
  complete = ((λ q. same), (λ q. refl));
}

pub send_range_lem :
    (answers : List Answer) (buffer : List ℕ) (start end : ℕ)
    → start ≤ end
    → SentLem buffer start end (send_range answers buffer start end)
unfolding send_range
send_range_lem [] buffer start end le = elim (Bool-cases (ltb start end)) [
  | inl e ↦ rw e (stopped buffer start end again [] (ground arith))
  | inr e ↦ rw e (arrived buffer start end [] (ground arith))
]
send_range_lem (failed x ∷ answers) buffer start end le = elim (Bool-cases (ltb start end)) [
  | inl e ↦ rw e (stopped buffer start end x answers (ground arith))
  | inr e ↦ rw e (arrived buffer start end (failed x ∷ answers) (ground arith))
]
send_range_lem (took k ∷ answers) buffer start end le =
    let n = min k (end - start) in
    let rest = send_range_lem answers buffer (start + n) end (omega arith) in
    elim (Bool-cases (ltb start end)) [
      | inl e ↦ rw e (elim (Bool-cases (n == 0)) [
        | inl z ↦ rw z (stopped buffer start end pipe answers (ground arith))
        | inr z ↦ rw z (record {
          on = omega (arith, rest.on);
          within = rest.within;
          went =
              ap (λ t. slice start (start + n) buffer ++ t) rest.went
              ∙ slice-slice start (start + n) _ buffer (omega arith) rest.on;
          complete = rest.complete;
        })
      ])
      | inr e ↦ rw e (arrived buffer start end (took k ∷ answers) (ground arith))
    ]

pub length-write_at :
    (s : ℕ) (xs b : List ℕ) → s + length xs ≤ length b → length (write_at s xs b) ≡ length b
length-write_at s xs b le = omega (
  arith,
  length-append (take s b) (xs ++ drop (s + length xs) b),
  length-append xs (drop (s + length xs) b),
  length-take s b (omega arith),
  length-drop (s + length xs) b,
)

-- a write behind a write is one write
write_at-write_at :
    (s n : ℕ) (xs ys b : List ℕ)
    → length xs ≡ n
    → s + n ≤ length b
    → write_at (s + n) ys (write_at s xs b) ≡ write_at s (xs ++ ys) b
write_at-write_at s n xs ys b len le =
    ap₂ ◌++◌ front (ap (λ t. ys ++ t) back)
    ∙ append_assoc (take s b) xs (ys ++ drop (s + length (xs ++ ys)) b)
    ∙ ap (λ t. take s b ++ t) (sym (append_assoc xs ys (drop (s + length (xs ++ ys)) b)))
  where
    written : length (take s b ++ xs) ≡ s + n
    written = omega (arith, length-append (take s b) xs, length-take s b (omega arith))

    front : take (s + n) (write_at s xs b) ≡ take s b ++ xs
    front =
        ap (take (s + n)) (sym (append_assoc (take s b) xs (drop (s + length xs) b)))
        ∙ take-append (take s b ++ xs) (drop (s + length xs) b) (s + n) written

    back : drop (s + n + length ys) (write_at s xs b) ≡ drop (s + length (xs ++ ys)) b
    back =
        ap (drop (s + n + length ys)) (sym (append_assoc (take s b) xs (drop (s + length xs) b)))
        ∙ drop-past (take s b ++ xs) (drop (s + length xs) b) (s + n) (length ys)
            (s + n + length ys) written refl
        ∙ drop-drop (s + length xs) (length ys) b
        ∙ ap (λ k. drop k b) (omega (arith, length-append xs ys))

-- How far a receive came: the bytes between the two starts are the first that were pending, and it
-- came to the end exactly if it succeeded.
pub record ReceivedLem (pending buffer : List ℕ) (start end : ℕ) (r : Received) : Type 0 where
  pub on : start ≤ r.start
  pub within : r.start ≤ end
  pub enough : r.start - start ≤ length pending
  pub wrote : r.buffer ≡ write_at start (take (r.start - start) pending) buffer
  pub left : r.pending ≡ drop (r.start - start) pending
  pub complete : (r.status ≡ success) ↔ (r.start ≡ end)

write_at-none : (s : ℕ) (b : List ℕ) → b ≡ write_at s [] b
write_at-none s b = sym (ap (λ k. take s b ++ drop k b) (omega arith) ∙ take-drop s b)

-- nothing was received by the last call
ended :
    (pending buffer : List ℕ) (start end : ℕ) (status : ReceiveStatus) (answers : List Answer)
    → start ≤ end
    → (status ≡ success) ↔ (start ≡ end)
    → ReceivedLem pending buffer start end (record {
      status = status;
      start = start;
      buffer = buffer;
      pending = pending;
      answers = answers;
    })
ended pending buffer start end status answers le whether =
    let none_yet : start - start ≡ 0 = omega arith in
    record {
      on = omega arith;
      within = le;
      enough = omega arith;
      wrote = rw none_yet (write_at-none start buffer);
      left = rw none_yet refl;
      complete = whether;
    }

pub recv_range_lem :
    (answers : List Answer) (pending buffer : List ℕ) (start end : ℕ)
    → start ≤ end
    → end ≤ length buffer
    → ReceivedLem pending buffer start end (recv_range answers pending buffer start end)
unfolding recv_range
recv_range_lem [] pending buffer start end le room = elim (Bool-cases (ltb start end)) [
  | inl e ↦ rw e (ended pending buffer start end _ [] le ((λ q. cc), (λ q. absurd (ground arith))))
  | inr e ↦ rw e (ended pending buffer start end _ [] le ((λ q. ground arith), (λ q. refl)))
]
recv_range_lem (failed x ∷ answers) pending buffer start end le room =
    elim (Bool-cases (ltb start end)) [
      | inl e ↦
          rw e
            (ended pending buffer start end _ answers le ((λ q. cc), (λ q. absurd (ground arith))))
      | inr e ↦ rw e (
          ended pending buffer start end _ (failed x ∷ answers) le
            ((λ q. ground arith), (λ q. refl)))
    ]
recv_range_lem (took k ∷ answers) pending buffer start end le room =
    let n = min (min k (end - start)) (length pending) in
    let got : length (take n pending) ≡ n = length-take n pending (omega arith) in
    let rest =
      recv_range_lem answers (drop n pending) (write_at start (take n pending) buffer) (start + n)
        end (omega arith)
        (omega (arith, got, length-write_at start (take n pending) buffer (omega (arith, got)))) in
    elim (Bool-cases (ltb start end)) [
      | inl e ↦ rw e (elim (Bool-cases (n == 0)) [
        | inl z ↦
            rw z (
              ended pending buffer start end _ answers le ((λ q. cc), (λ q. absurd (ground arith))))
        | inr z ↦ rw z (record {
          on = omega (arith, rest.on);
          within = rest.within;
          enough = omega (arith, rest.enough, length-drop n pending, rest.on);
          wrote =
              rest.wrote
              ∙ write_at-write_at start n (take n pending) _ buffer got (omega arith)
              ∙ ap (λ t. write_at start t buffer)
                  (take-take-drop n _ pending ∙ ap (λ k. take k pending) (omega (arith, rest.on)));
          left =
              rest.left ∙ drop-drop n _ pending ∙ ap (λ k. drop k pending) (omega (arith, rest.on));
          complete = rest.complete;
        })
      ])
      | inr e ↦ rw e (
          ended pending buffer start end _ (took k ∷ answers) le ((λ q. ground arith), (λ q. refl)))
    ]
