-- ===== src/Ring/Window.antt =====
-- The slots between two cursors, read as a list: what a ring buffer holds, oldest first.
use hft_architecture.Base.{
  ℕ, zero, suc, ◌+◌, ◌-◌, ◌%◌, ◌≤◌, ◌<◌, ◌∣◌, ◌≡◌, refl, sym, ap, ap₂, ◌∙◌, ◌≢◌, List, [], ◌∷◌,
  ◌++◌, arith, length, Array, put, put_self, put_ne, u64_mod, add64, sub64, slot-ne,
}
use native.Mathlib.Nat.{mod-mod_of_dvd, mod-add-mod, add-zero}
use mathlib.Core.Path.{◌≡⟨◌⟩◌, ◌∎}

-- A capacity accepted by the buffers' static_asserts: a nonzero power of two, so it divides 2 ^ 64.
pub record IsCapacity (cap : ℕ) : Type 0 where
  pub nonzero : 0 < cap
  pub small : cap < u64_mod
  pub divides : cap ∣ u64_mod

-- A cursor reduced to the size of a `size_t` points at the same slot.
pub slot-wrap : {cap : ℕ} → IsCapacity cap → (x : ℕ) → x % u64_mod % cap ≡ x % cap
slot-wrap {cap} c x = mod-mod_of_dvd cap x c.divides

pub next_slot : {cap : ℕ} → IsCapacity cap → (c n : ℕ) → (add64 c 1 + n) % cap ≡ (c + suc n) % cap
next_slot {cap} cp c n =
    (add64 c 1 + n) % cap
    ≡⟨ sym (mod-add-mod (add64 c 1) cap n) ⟩ (add64 c 1 % cap + n) % cap
    ≡⟨ ap (λ t. (t + n) % cap) (slot-wrap cp (c + 1)) ⟩ ((c + 1) % cap + n) % cap
    ≡⟨ mod-add-mod (c + 1) cap n ⟩ (c + 1 + n) % cap
    ≡⟨ ap (λ t. t % cap) (omega arith) ⟩ (c + suc n) % cap ∎

module _ {ℓ} {A : Type ℓ} where
  -- the `n` items from cursor `c` on
  abbrev pub window : Array A → ℕ → ℕ → ℕ → List A
  window buf cap c zero = []
  window buf cap c (suc n) = buf (c % cap) ∷ window buf cap (add64 c 1) n

  pub length-window : (buf : Array A) (cap c n : ℕ) → length (window buf cap c n) ≡ n
  length-window buf cap c zero = refl
  length-window buf cap c (suc n) = ap suc (length-window buf cap (add64 c 1) n)

  module _ {cap : ℕ} (cp : IsCapacity cap) (buf : Array A) (x : A) where
    -- A write to a slot outside a window leaves the window alone.
    pub window-put_outside :
        (n c m i : ℕ)
        → i ≡ (c + m) % cap
        → n ≤ m
        → m < cap
        → window (put buf i x) cap c n ≡ window buf cap c n
    window-put_outside zero c m i e le lt = refl
    window-put_outside (suc n) c zero i e le lt = absurd (omega arith)
    window-put_outside (suc n) c (suc m) i e le lt =
        ap₂ ◌∷◌ (put_ne buf i (c % cap) x (λ q. slot-ne c m cp.nonzero lt (sym e ∙ q))) (
          window-put_outside n (add64 c 1) m i (e ∙ sym (next_slot cp c m)) (omega arith)
            (omega arith))

    -- A write just past a window, with the window made one longer, appends the item.
    pub window-put_end :
        (n c i : ℕ)
        → i ≡ (c + n) % cap
        → n < cap
        → window (put buf i x) cap c (suc n) ≡ window buf cap c n ++ (x ∷ [])
    window-put_end zero c i e lt = ap (λ t. t ∷ []) (rw (e, add-zero) (put_self buf (c % cap) x))
    window-put_end (suc n) c i e lt =
        ap₂ ◌∷◌ (put_ne buf i (c % cap) x (λ q. slot-ne c n cp.nonzero lt (sym e ∙ q)))
          (window-put_end n (add64 c 1) i (e ∙ sym (next_slot cp c n)) (omega arith))

-- Where the write cursor `w` points, by the read cursor `r` and the number of items between them.
pub cursor_slot :
    {cap : ℕ}
    → IsCapacity cap
    → (w r : ℕ) → w < u64_mod
    → r < u64_mod
    → w % cap ≡ (r + sub64 w r) % cap
cursor_slot {cap} cp w r hw hr = ap (λ t. t % cap) whole ∙ slot-wrap cp (r + sub64 w r)
  where
    whole : w ≡ (r + sub64 w r) % u64_mod
    whole = omega arith

-- `window` matches on its length, the code compares two cursors.
pub window_of_ne {ℓ} :
    {A : Type ℓ} (buf : Array A) (cap c n : ℕ)
    → n ≢ 0
    → window buf cap c n ≡ buf (c % cap) ∷ window buf cap (add64 c 1) (n - 1)
window_of_ne buf cap c zero h = absurd (h refl)
window_of_ne buf cap c (suc n) h =
    ap (λ k. buf (c % cap) ∷ window buf cap (add64 c 1) k) (omega arith)

module _ {ℓ} {A : Type ℓ} {cap : ℕ} (cp : IsCapacity cap) (buf : Array A) (w r : ℕ) where
  -- Writing at the write cursor and moving it on appends the item to what is held.
  pub window-push :
      (x : A)
      → w < u64_mod
      → r < u64_mod
      → sub64 w r < cap
      → window (put buf (w % cap) x) cap r (sub64 (add64 w 1) r)
        ≡ window buf cap r (sub64 w r) ++ (x ∷ [])
  window-push x hw hr room =
      ap (window (put buf (w % cap) x) cap r) longer
      ∙ window-put_end cp buf x (sub64 w r) r (w % cap) (cursor_slot cp w r hw hr) room
    where
      longer : sub64 (add64 w 1) r ≡ suc (sub64 w r)
      longer = omega (arith, cp.small)

  -- Moving the read cursor on takes the first item off.
  pub window-pop :
      w < u64_mod
      → r < u64_mod
      → w ≢ r
      → window buf cap r (sub64 w r)
        ≡ buf (r % cap) ∷ window buf cap (add64 r 1) (sub64 w (add64 r 1))
  window-pop hw hr ne =
      window_of_ne buf cap r (sub64 w r) (omega arith)
      ∙ ap (λ k. buf (r % cap) ∷ window buf cap (add64 r 1) k) shorter
    where
      shorter : sub64 w r - 1 ≡ sub64 w (add64 r 1)
      shorter = omega arith
