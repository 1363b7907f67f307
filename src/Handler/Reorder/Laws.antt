-- ===== src/Handler/Reorder/Laws.antt =====
-- ReorderBuffer against a description without slots: which packets have arrived, and which is next.
use hft_architecture.Base.{
  ℕ, suc, ◌+◌, ◌-◌, ◌%◌, ◌≤◌, ◌<◌, ◌≡◌, refl, sym, ap, ap₂, ◌∙◌, ◌≢◌, inl, inr, Bool, true, false,
  not, ◌||◌, Option, none, some, List, [], ◌∷◌, arith, dec_lt, ltb, leb, ◌==◌, if◌then◌else◌,
  eq_of_==, ne_of_==, Bool-cases, length, Array, put, put_self, put_ne, u64_mod, add64, slot-ne,
}
use native.Mathlib.Nat.{add-mod_right}
use hft_architecture.Handler.Reorder.{
  ReorderBuffer, Status, empty, locked, ready, WriteStatus, likely_slow_reader, likely_slow_writer,
  success, already_written, is_ready, is_empty, Call, write, consume, Reply, wrote, consumed,
  try_consume_next, try_claim_slot, validate_and_claim_slot, try_write_to, run, fresh,
}

-- The packets that arrived and are not delivered yet, and the number of the next one.
pub record Sequence : Type 0 where
  pub next : ℕ
  pub arrived : Array Bool

-- A packet is turned away when it is too far ahead, and ignored when it came before.
unfoldable pub arrive : ℕ → ℕ → Sequence → WriteStatus × Sequence
arrive cap index t =
    if leb (t.next + (cap - 1)) index
    then (if t.arrived t.next then likely_slow_reader else likely_slow_writer, t)
    else if ltb index t.next || t.arrived index
    then (already_written, t)
    else (success, record t { arrived = put t.arrived index true })

-- Packets are delivered in the order of their numbers.
unfoldable pub deliver {ℓ} : {A : Type ℓ} → (ℕ → A) → Sequence → Option A × Sequence
deliver packet t =
    if t.arrived t.next
    then (some (packet t.next), record { next = t.next + 1; arrived = put t.arrived t.next false })
    else (none, t)

unfoldable pub delivery {ℓ} : {A : Type ℓ} → ℕ → (ℕ → A) → Sequence → List Call → List (Reply A)
delivery cap packet t [] = []
delivery cap packet t (write index ∷ calls) =
    let (answer, t') = arrive cap index t in wrote answer ∷ delivery cap packet t' calls
delivery cap packet t (consume ∷ calls) =
    let (out, t') = deliver packet t in consumed out ∷ delivery cap packet t' calls

abbrev pub status_of : Bool → Status
status_of arrived = if arrived then ready else empty

-- The slots hold what the description says, for the `cap` numbers from the next one on.
pub record Holds {ℓ} {A : Type ℓ} (cap : ℕ) (packet : ℕ → A) (s : ReorderBuffer A) (t : Sequence)
    : Type ℓ where
  pub same_next : s.reader_index ≡ t.next
  pub statuses :
      (i : ℕ) → t.next ≤ i → i < t.next + cap → s.status (i % cap) ≡ status_of (t.arrived i)
  pub items :
      (i : ℕ) → t.next ≤ i → i < t.next + cap → t.arrived i ≡ true → s.data_of (i % cap) ≡ packet i
  pub none_ahead : (i : ℕ) → t.next + (cap - 1) ≤ i → t.arrived i ≡ false

-- two numbers less than `cap` apart have slots of their own
slots-ne : (cap i j n : ℕ) → n ≤ i → i < n + cap → n ≤ j → j < n + cap → i ≢ j → i % cap ≢ j % cap
slots-ne cap i j n li hi lj hj ne e = elim (dec_lt i j) [
  | yes p ↦
      slot-ne i (j - i - 1) (omega arith) (omega arith) (ap (λ t. t % cap) (omega arith) ∙ sym e)
  | no p ↦ slot-ne j (i - j - 1) (omega arith) (omega arith) (ap (λ t. t % cap) (omega arith) ∙ e)
]

status_of-ready : (b : Bool) → is_ready (status_of b) ≡ b
status_of-ready b = ground arith

status_of-empty : (b : Bool) → is_empty (status_of b) ≡ not b
status_of-empty b = ground arith

module _ {ℓ} {A : Type ℓ} {cap : ℕ} (nonzero : 0 < cap) (packet : ℕ → A) (s : ReorderBuffer A)
    (t : Sequence) (h : Holds cap packet s t) (room : t.next + cap < u64_mod) where
  next_ready : is_ready (s.status (s.reader_index % cap)) ≡ t.arrived t.next
  next_ready =
      rw (h.same_next, h.statuses t.next (omega arith) (omega arith))
        (status_of-ready (t.arrived t.next))

  -- the slot of the packet that is next, and the packet that takes that slot after it
  consumed_status :
      (i : ℕ)
      → suc t.next ≤ i
      → i < suc t.next + cap
      → put s.status (s.reader_index % cap) empty (i % cap)
        ≡ status_of (put t.arrived t.next false i)
  consumed_status i lo hi = elim (dec_lt i (t.next + cap)) [
    | yes p ↦
        put_ne s.status (s.reader_index % cap) (i % cap) empty (
          rw h.same_next (
            slots-ne cap t.next i t.next (omega arith) (omega arith) (omega arith) p (omega arith)))
        ∙ h.statuses i (omega arith) p
        ∙ ap status_of (sym (put_ne t.arrived t.next i false (omega arith)))
    | no p ↦
        ap (put s.status (s.reader_index % cap) empty) (
          ap (λ n. n % cap) (omega arith)
          ∙ add-mod_right t.next cap
          ∙ ap (λ n. n % cap) (sym h.same_next))
        ∙ put_self s.status (s.reader_index % cap) empty
        ∙ ap status_of
            (sym (put_ne t.arrived t.next i false (omega arith) ∙ h.none_ahead i (omega arith)))
  ]

  consumed_ahead : (i : ℕ) → suc t.next + (cap - 1) ≤ i → put t.arrived t.next false i ≡ false
  consumed_ahead i lo = ground (arith, h.none_ahead i (omega arith))

  consumed_item :
      (i : ℕ)
      → suc t.next ≤ i
      → put t.arrived t.next false i ≡ true
      → s.data_of (i % cap) ≡ packet i
  consumed_item i lo a = elim (dec_lt i (t.next + (cap - 1))) [
    | yes p ↦ h.items i (omega arith) (omega arith) (ground arith)
    | no p ↦ absurd (ground (arith, h.none_ahead i (omega arith)))
  ]

  pub try_consume_next_lem :
      let (out, s') = try_consume_next cap s in
      let (out', t') = deliver packet t in (out ≡ out') × Holds cap packet s' t'
  unfolding try_consume_next deliver
  try_consume_next_lem = elim (Bool-cases (t.arrived t.next)) [
    | inl e ↦
        rw (next_ready, e)
          (
            ap some (rw h.same_next (h.items t.next (omega arith) (omega arith) e)),
            record {
              same_next = rw h.same_next (omega arith);
              statuses = λ i lo hi. consumed_status i (omega arith) (omega arith);
              items = λ i lo hi a. consumed_item i (omega arith) a;
              none_ahead = λ i lo. consumed_ahead i (omega arith);
            },
          )
    | inr e ↦ rw (next_ready, e) (refl, h)
  ]

  -- a slot that is claimed and filled
  filled :
      (index : ℕ)
      → t.next ≤ index
      → index < t.next + (cap - 1)
      → Holds cap packet
          (record s {
            status = put (put s.status (index % cap) locked) (index % cap) ready;
            data_of = put s.data_of (index % cap) (packet index);
          })
          (record t { arrived = put t.arrived index true })
  filled index lo hi = record {
    same_next = h.same_next;
    statuses = λ i li hj. elim (Bool-cases (index == i)) [
      | inl e ↦
          rw (e, ← eq_of_== index i e)
            (put_self (put s.status (index % cap) locked) (index % cap) ready)
      | inr e ↦ rw e (
          put_ne (put s.status (index % cap) locked) (index % cap) (i % cap) ready (away i li hj e)
          ∙ put_ne s.status (index % cap) (i % cap) locked (away i li hj e)
          ∙ h.statuses i li hj)
    ];
    items = λ i li hj a. elim (Bool-cases (index == i)) [
      | inl e ↦ rw (← eq_of_== index i e) (put_self s.data_of (index % cap) (packet index))
      | inr e ↦
          put_ne s.data_of (index % cap) (i % cap) (packet index) (away i li hj e)
          ∙ h.items i li hj (sym (put_ne t.arrived index i true (ne_of_== _ _ e)) ∙ a)
    ];
    none_ahead = λ i li. put_ne t.arrived index i true (omega arith) ∙ h.none_ahead i li;
  }
    where
      away : (i : ℕ) → t.next ≤ i → i < t.next + cap → (index == i) ≡ false → index % cap ≢ i % cap
      away i li hj e = slots-ne cap index i t.next lo (omega arith) li hj (ne_of_== _ _ e)

  ahead : add64 s.reader_index (cap - 1) ≡ t.next + (cap - 1)
  ahead = omega (arith, h.same_next)

  refused_far :
      (index : ℕ)
      → leb (t.next + (cap - 1)) index ≡ true
      → validate_and_claim_slot cap index s
        ≡ (if t.arrived t.next then likely_slow_reader else likely_slow_writer, s)
  unfolding validate_and_claim_slot
  refused_far index far = rw (ahead, far, next_ready) refl

  same_old : (index : ℕ) → ltb index s.reader_index ≡ ltb index t.next
  same_old index = ap (ltb index) h.same_next

  refused_old :
      (index : ℕ)
      → leb (t.next + (cap - 1)) index ≡ false
      → ltb index t.next ≡ true
      → validate_and_claim_slot cap index s ≡ (already_written, s)
  unfolding validate_and_claim_slot
  refused_old index near old = rw (ahead, near, same_old index, old) refl

  claim :
      (index : ℕ)
      → leb (t.next + (cap - 1)) index ≡ false
      → ltb index t.next ≡ false
      → validate_and_claim_slot cap index s ≡ (
          if t.arrived index
          then (already_written, s)
          else (success, record s { status = put s.status (index % cap) locked }))
  unfolding validate_and_claim_slot try_claim_slot
  claim index near new =
      rw (ahead, near, same_old index, new, stands)
        (elim (Bool-cases (t.arrived index)) [ inl e ↦ rw e refl | inr e ↦ rw e refl ])
    where
      stands : is_empty (s.status (index % cap)) ≡ not (t.arrived index)
      stands =
          rw (h.statuses index (ground arith) (ground arith)) (status_of-empty (t.arrived index))

  pub try_write_to_lem :
      (index : ℕ)
      → let (answer, s') = try_write_to cap (packet index) index s in
        let (answer', t') = arrive cap index t in (answer ≡ answer') × Holds cap packet s' t'
  unfolding try_write_to arrive
  try_write_to_lem index = elim (Bool-cases (leb (t.next + (cap - 1)) index)) [
    | inl far ↦
        rw (try_write_to, refused_far index far, far)
          (elim (Bool-cases (t.arrived t.next)) [ inl e ↦ rw e (refl, h) | inr e ↦ rw e (refl, h) ])
    | inr near ↦ rw near (elim (Bool-cases (ltb index t.next)) [
      | inl old ↦ rw (try_write_to, refused_old index near old, old) (refl, h)
      | inr new ↦
          rw (try_write_to, claim index near new, new)
            (elim (Bool-cases (t.arrived index)) [
              | inl e ↦ rw e (refl, h)
              | inr e ↦ rw e (refl, filled index (ground arith) (ground arith))
            ])
    ])
  ]

arrive_next : (cap index : ℕ) (t : Sequence) → (arrive cap index t).1.next ≡ t.next
unfolding arrive
arrive_next cap index t = ground arith

deliver_next {ℓ} :
    {A : Type ℓ} (packet : ℕ → A) (t : Sequence) → (deliver packet t).1.next ≤ suc t.next
unfolding deliver
deliver_next packet t = ground arith

module _ {ℓ} {A : Type ℓ} {cap : ℕ} (nonzero : 0 < cap) (packet : ℕ → A) where
  -- Whatever packets arrive, in whatever order and however often, and whenever the consumer asks,
  -- every call of the buffer returns what the description says: the consumer gets the packets in the
  -- order of their numbers, each once and none that has not arrived, and a write is answered by
  -- whether its packet is too far ahead, was there before, or is new. The buffer has a slot at least,
  -- and its counter does not reach 2^64. The calls come one after the other: none begins before the
  -- last has ended.
  pub delivers_in_order :
      (calls : List Call) (s : ReorderBuffer A) (t : Sequence)
      → Holds cap packet s t
      → t.next + cap + length calls < u64_mod
      → run cap packet s calls ≡ delivery cap packet t calls
  unfolding run delivery
  delivers_in_order [] s t h room = refl
  delivers_in_order (write index ∷ calls) s t h room =
      let (same, h') = try_write_to_lem nonzero packet s t h (omega arith) index in
      ap₂ ◌∷◌ (ap wrote same)
        (delivers_in_order calls _ _ h' (omega (arith, arrive_next cap index t)))
  delivers_in_order (consume ∷ calls) s t h room =
      let (same, h') = try_consume_next_lem nonzero packet s t h (omega arith) in
      ap₂ ◌∷◌ (ap consumed same)
        (delivers_in_order calls _ _ h' (omega (arith, deliver_next packet t)))

  pub fresh-Holds :
      (storage : Array A) (first : ℕ)
      → Holds cap packet (fresh storage first) (record { next = first; arrived = λ i. false })
  fresh-Holds storage first = record {
    same_next = refl;
    statuses = λ i lo hi. refl;
    items = λ i lo hi a. cc;
    none_ahead = λ i lo. refl;
  }
