-- ===== src/Handler/Gap.antt =====
-- src/market-data-handler/gap-detector.cpp: GapDetector, over the sequence numbers of the packets
-- that arrive. Its state is `most_recent_packet_id`.
use hft_architecture.Base.{
  ℕ, suc, ◌+◌, ◌-◌, ◌≤◌, ◌<◌, ◌≡◌, refl, ◌⊎◌, inl, inr, ◌&&◌, Option, none, some, List, [], ◌∷◌,
  arith, dec_lt, ltb, leb, ◌==◌, if◌then◌else◌, Bool-cases, u64_mod, add64,
}
use hft_architecture.Wire.Request.{RetransmitRequest}

-- `exchange::config::FIRST_SEQUENCE_ID - 1`, where a detector starts
abbrev pub first_packet_id : ℕ
first_packet_id = 0

unfoldable pub has_gap : ℕ → ℕ → Option RetransmitRequest × ℕ
has_gap new_id most_recent =
    if ltb (add64 most_recent 1) new_id
    then (some (record { first_packet = add64 most_recent 1; last_packet = new_id }), new_id)
    else if new_id == add64 most_recent 1
    then (none, add64 most_recent 1)
    else (none, most_recent)

-- the packets that arrive, each with the request that it gives rise to
unfoldable pub watch : ℕ → List ℕ → List (Option RetransmitRequest)
watch most_recent [] = []
watch most_recent (id ∷ ids) =
    let (request, latest) = has_gap id most_recent in request ∷ watch latest ids

-- where the detector stands after the packets
unfoldable pub latest : ℕ → List ℕ → ℕ
latest most_recent [] = most_recent
latest most_recent (id ∷ ids) = latest (has_gap id most_recent).1 ids

-- RetransmitServer sends the packets from the first up to, and without, the last.
abbrev pub Requests : RetransmitRequest → ℕ → Type 0
Requests r x = (r.first_packet ≤ x) × (x < r.last_packet)

-- Some request of the list asks for `x`.
pub data Asked (x : ℕ) : List (Option RetransmitRequest) → Type 0 where
  here :
      {r : RetransmitRequest}
      → {rs : List (Option RetransmitRequest)} → Requests r x
      → Asked x (some r ∷ rs)
  later :
      {o : Option RetransmitRequest}
      → {rs : List (Option RetransmitRequest)} → Asked x rs
      → Asked x (o ∷ rs)

-- The packet is among those that arrived.
pub data Arrived (x : ℕ) : List ℕ → Type 0 where
  here : {ids : List ℕ} → Arrived x (x ∷ ids)
  later : {y : ℕ} → {ids : List ℕ} → Arrived x ids → Arrived x (y ∷ ids)

-- how many of the requests ask for `x`
abbrev pub times_asked : ℕ → List (Option RetransmitRequest) → ℕ
times_asked x [] = 0
times_asked x (none ∷ rs) = times_asked x rs
times_asked x (some r ∷ rs) =
    (if leb r.first_packet x && ltb x r.last_packet then 1 else 0) + times_asked x rs

-- Every sequence number leaves room for its successor.
abbrev pub Within : List ℕ → Type 0
Within [] = Unit
Within (id ∷ ids) = (id < u64_mod - 1) × Within ids

latest-ge : (m id : ℕ) → m < u64_mod - 1 → m ≤ (has_gap id m).1
unfolding has_gap
latest-ge m id h = ground arith

latest-in : (m id : ℕ) → m < u64_mod - 1 → id < u64_mod - 1 → (has_gap id m).1 < u64_mod - 1
unfolding has_gap
latest-in m id h h' = ground arith

-- What one packet moves past either is that packet or is asked for.
step :
    (m id x : ℕ)
    → m < u64_mod - 1
    → m < x
    → x ≤ (has_gap id m).1
    → (x ≡ id) ⊎ ((r : RetransmitRequest) × ((has_gap id m).0 ≡ some r) × Requests r x)
unfolding has_gap
step m id x h lo hi = elim (Bool-cases (ltb (add64 m 1) id)) [
  | inl e ↦ rw e (elim (dec_lt x id) [
    | yes p ↦ inr (record { first_packet = add64 m 1; last_packet = id }, refl, (omega arith, p))
    | no p ↦ inl (ground arith)
  ])
  | inr e ↦ inl (ground arith)
]

-- Every packet up to the newest one has arrived or has been asked for: of the packets numbered above
-- where the detector stood, up to where it stands after any packets in any order, none is missed.
pub missed_none :
    (ids : List ℕ) (m x : ℕ)
    → m < u64_mod - 1
    → Within ids
    → m < x
    → x ≤ latest m ids
    → Arrived x ids ⊎ Asked x (watch m ids)
unfolding watch latest
missed_none [] m x h w lo hi = absurd (omega arith)
missed_none (id ∷ ids) m x h (w, ws) lo hi = elim (dec_lt (has_gap id m).1 x) [
  | yes p ↦ elim (missed_none ids (has_gap id m).1 x (latest-in m id h w) ws p hi) [
    | inl a ↦ inl (later a)
    | inr a ↦ inr (later a)
  ]
  | no p ↦ elim (step m id x h lo (omega arith)) [
    | inl e ↦ inl (rw e here)
    | inr (r, e, q) ↦ inr (rw e (here q))
  ]
]

-- one packet asks for nothing up to where the detector stood, and for `x` once at most, which then
-- lies below where it stands
asked_by :
    (m id x : ℕ) (rs : List (Option RetransmitRequest))
    → m < u64_mod - 1
    → id < u64_mod - 1
    → (times_asked x ((has_gap id m).0 ∷ rs) ≡ times_asked x rs)
      ⊎ (times_asked x ((has_gap id m).0 ∷ rs) ≡ suc (times_asked x rs))
        × (m < x)
        × (x < (has_gap id m).1)
unfolding has_gap
asked_by m id x rs h w = ground arith

-- No packet is asked for twice, and none that is numbered at or below where the detector stood.
pub asked_once :
    (ids : List ℕ) (m x : ℕ)
    → m < u64_mod - 1
    → Within ids
    → (times_asked x (watch m ids) ≤ 1) × (x ≤ m → times_asked x (watch m ids) ≡ 0)
unfolding watch
asked_once [] m x h w = (omega arith, λ _. refl)
asked_once (id ∷ ids) m x h (w, ws) =
    let (once, past) = asked_once ids (has_gap id m).1 x (latest-in m id h w) ws in
    ground (arith, asked_by m id x (watch (has_gap id m).1 ids) h w, latest-ge m id h)
