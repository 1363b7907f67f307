-- ===== src/Exchange/Cache/Laws.antt =====
-- CircularCache against what it is for: the newest items, by their numbers.
use native.Mathlib.Nat.{
  mod-mod, mod-lt, mod-eq_of_lt, div-add-mod, add-mul-mod_self_right, mul_comm, add-zero,
}
use hft_architecture.Exchange.Cache.{
  CircularCache, Expected, item, unexpected, data_too_old, data_does_not_exist, fresh, is_locked,
  try_get_item, put_item, fill,
}
use hft_architecture.Base.{
  ℕ, zero, suc, ◌+◌, ◌-◌, ◌*◌, ◌/◌, ◌%◌, ◌≤◌, ◌<◌, ◌≡◌, refl, sym, ap, ◌∙◌, ◌≢◌, inl, inr, arith,
  dec_lt, ltb, leb, if◌then◌else◌, Bool-cases, Array, put, put_self, put_ne, u32_mod, slot-ne,
}

-- `n` items were put. The slots hold the newest of them, and one that was never written holds the
-- sequence number 0.
pub record Caches {ℓ} {A : Type ℓ} (cap : ℕ) (packet : ℕ → A) (n : ℕ) (s : CircularCache A)
    : Type ℓ where
  pub count : s.write_index ≡ n
  pub numbered : (i : ℕ) → i < n → n ≤ i + cap → s.sequence (i % cap) ≡ i
  pub kept : (i : ℕ) → i < n → n ≤ i + cap → s.buffer (i % cap) ≡ packet i
  pub unwritten : (j : ℕ) → n ≤ j → j < cap → s.sequence j ≡ 0

-- What a reader gets for the item `i` when `n` items were put.
unfoldable pub lookup {ℓ} : {A : Type ℓ} → ℕ → (ℕ → A) → ℕ → ℕ → Expected A
lookup cap packet n i =
    if leb n i
    then unexpected data_does_not_exist
    else if ltb (i + cap) n
    then unexpected data_too_old
    else item (packet i)

-- the newest of the first `n` items that shares the slot of the item `j`
abbrev newest : ℕ → ℕ → ℕ → ℕ
newest cap n j = j + (n - 1 - j) / cap * cap

newest_lem :
    (cap n j : ℕ)
    → 0 < cap
    → j < n
    → (j ≤ newest cap n j)
      × (newest cap n j < n)
      × (n ≤ newest cap n j + cap)
      × (newest cap n j % cap ≡ j % cap)
newest_lem capacity n j nonzero lt = (
  omega arith,
  omega (arith, div-add-mod (n - 1 - j) capacity, mul_comm capacity ((n - 1 - j) / capacity)),
  omega (
    arith,
    div-add-mod (n - 1 - j) capacity,
    mod-lt (n - 1 - j) nonzero,
    mul_comm capacity ((n - 1 - j) / capacity),
  ),
  add-mul-mod_self_right j ((n - 1 - j) / capacity) capacity,
)

module _ {ℓ} {A : Type ℓ} {cap : ℕ} (nonzero : 0 < cap) (packet : ℕ → A) where
  pub fresh-Caches : (storage : Array A) → Caches cap packet 0 (fresh storage)
  fresh-Caches storage = record {
    count = refl;
    numbered = λ i h. absurd (omega arith);
    kept = λ i h. absurd (omega arith);
    unwritten = λ j lo hi. refl;
  }

  -- the slot of an older item that is still kept
  away : (n i : ℕ) → i < n → suc n ≤ i + cap → n % cap ≢ i % cap
  away n i lt near e =
      slot-ne i (n - i - 1) nonzero (omega arith) (ap (λ t. t % cap) (omega arith) ∙ e)

  pub put_item-Caches :
      (n : ℕ) (s : CircularCache A)
      → n < is_locked
      → Caches cap packet n s
      → Caches cap packet (suc n) (put_item cap (packet n) s)
  unfolding put_item
  put_item-Caches n s small c =
      rw (c.count, mod-eq_of_lt {n = n} {m = u32_mod} (omega arith))
        (record {
          count = omega arith;
          numbered = λ i lt near. elim (dec_lt i n) [
            | yes p ↦
                put_ne (put s.sequence (n % cap) is_locked) (n % cap) (i % cap) n (away n i p near)
                ∙ put_ne s.sequence (n % cap) (i % cap) is_locked (away n i p near)
                ∙ c.numbered i p (omega arith)
            | no p ↦
                ap (λ k. put (put s.sequence (n % cap) is_locked) (n % cap) n (k % cap))
                  (same i lt p)
                ∙ put_self (put s.sequence (n % cap) is_locked) (n % cap) n
                ∙ sym (same i lt p)
          ];
          kept = λ i lt near. elim (dec_lt i n) [
            | yes p ↦
                put_ne s.buffer (n % cap) (i % cap) (packet n) (away n i p near)
                ∙ c.kept i p (omega arith)
            | no p ↦
                ap (λ k. put s.buffer (n % cap) (packet n) (k % cap)) (same i lt p)
                ∙ put_self s.buffer (n % cap) (packet n)
                ∙ ap packet (sym (same i lt p))
          ];
          unwritten = λ j lo hi.
              put_ne (put s.sequence (n % cap) is_locked) (n % cap) j n (past j lo hi)
              ∙ put_ne s.sequence (n % cap) j is_locked (past j lo hi)
              ∙ c.unwritten j (omega arith) hi;
        })
    where
      same : (i : ℕ) → i < suc n → ¬ i < n → i ≡ n
      same i lt p = omega arith

      past : (j : ℕ) → suc n ≤ j → j < cap → n % cap ≢ j
      past j lo hi = rw (mod-eq_of_lt {n = n} {m = cap} (omega arith)) (omega arith)

  -- what the slot of the item `i` holds when the item is not put yet
  before :
      (n i : ℕ) (s : CircularCache A)
      → Caches cap packet n s
      → n ≤ i
      → 0 < i
      → s.sequence (i % cap) < i
  before n i s c le pos = elim (dec_lt (i % cap) n) [
    | yes p ↦
        let (lo, hi, near, slot) = newest_lem cap n (i % cap) nonzero p in
        let number = c.numbered (newest cap n (i % cap)) hi near in
        rw (sym (ap s.sequence (slot ∙ mod-mod i cap)) ∙ number) (omega arith)
    | no p ↦ rw (c.unwritten (i % cap) (omega arith) (mod-lt i nonzero)) (omega arith)
  ]

  -- what it holds when the slot was taken by a newer one
  after :
      (n i : ℕ) (s : CircularCache A)
      → Caches cap packet n s
      → i + cap < n
      → (i < s.sequence (i % cap)) × (s.sequence (i % cap) < n)
  after n i s c lt =
      let (lo, hi, near, slot) = newest_lem cap n i nonzero (omega arith) in
      rw (sym (ap s.sequence slot) ∙ c.numbered (newest cap n i) hi near) (omega arith, hi)

  -- When `n` items were put, the reader gets exactly the newest `cap` of them: an older one is
  -- reported as too old and one that was not put as missing. The items number fewer than 2^32 - 1,
  -- and the first one is not asked of an empty cache.
  pub try_get_item_lem :
      (n i : ℕ) (s : CircularCache A)
      → Caches cap packet n s
      → n ≤ is_locked
      → i < is_locked
      → 0 < n + i
      → try_get_item cap i s ≡ lookup cap packet n i
  unfolding try_get_item lookup
  try_get_item_lem n i s c small short some_item = elim (Bool-cases (leb n i)) [
    | inl missing ↦ rw missing (ground (arith, before n i s c (ground arith) (ground arith)))
    | inr put ↦ rw put (elim (Bool-cases (ltb (i + cap) n)) [
      | inl old ↦ rw old (ground (arith, after n i s c (ground arith)))
      | inr held ↦ rw held (
          ground (
            arith,
            c.numbered i (ground arith) (ground arith),
            c.kept i (ground arith) (ground arith),
          ))
    ])
  ]

  -- Asked for the first item before anything was put, the cache returns what its storage holds
  -- instead of reporting that there is no such item.
  pub try_get_item-fresh :
      (storage : Array A) → try_get_item cap 0 (fresh storage) ≡ item (storage 0)
  unfolding try_get_item
  try_get_item-fresh storage = ap (λ k. item (storage k)) (mod-eq_of_lt {n = 0} {m = cap} nonzero)

  pub fill-Caches :
      (k n : ℕ) (s : CircularCache A)
      → n + k ≤ is_locked
      → Caches cap packet n s
      → Caches cap packet (n + k) (fill cap packet n k s)
  unfolding fill
  fill-Caches zero n s small c = rw (add-zero n) c
  fill-Caches (suc k) n s small c =
      rw (← suc-add n k)
        (fill-Caches k (suc n) _ (omega arith) (put_item-Caches n s (omega arith) c))
    where
      suc-add : (n k : ℕ) → suc n + k ≡ n + suc k
      suc-add n k = omega arith
