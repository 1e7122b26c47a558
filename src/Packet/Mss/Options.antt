-- ===== src/Packet/Mss/Options.antt =====
-- The MSS options of a TCP segment, told apart from the walk that lowers them (router.rs:
-- `clamp_tcp_mss`).
use nullgate.Common.{
  ℕ, zero, suc, ◌+◌, ◌/◌, ◌%◌, ◌≤◌, ◌<◌, ◌≡◌, ◌≢◌, ◌∙◌, ◌⊎◌, inl, inr, sym, ap, ap₂, min, Bool,
  true, ◌||◌, some, arith, length, length-set, get_or-set_ne, get_or-set_self, Bool-cases, set,
  if◌then◌else◌,
}
use nullgate.Packet.{Packet, at, be_u16}
use nullgate.Packet.Checksum.{set_be}
use nullgate.Packet.Mss.{exceeds, lower, nop, option, round, walk}
use nullgate.Packet.Mss.Walk.{
  round-option, round-nop, walk-Steps, walk-Framed, at-lower, at-lower_far, length-lower,
}

-- The options that start at `i` have one that starts at `j`: No-Operation has kind 1, End of Option
-- List kind 0, and every other option has its length in its second byte.
pub data HasOption (pkt : Packet) (end : ℕ) : ℕ → ℕ → Type 0 where
  here : {i : ℕ} → i + 1 < end → HasOption pkt end i i
  after_nop :
      {i j : ℕ} → i + 1 < end → at pkt i ≡ 1 → HasOption pkt end (i + 1) j → HasOption pkt end i j
  after_option :
      {i j len : ℕ}
      → i + 1 < end
      → at pkt i ≢ 0
      → at pkt i ≢ 1
      → at pkt (i + 1) ≡ len
      → 2 ≤ len
      → i + len ≤ end
      → HasOption pkt end (i + len) j
      → HasOption pkt end i j

-- A Maximum Segment Size option: kind 2, length 4.
abbrev pub IsMssAt : Packet → ℕ → ℕ → Type 0
IsMssAt pkt end j = (at pkt j ≡ 2) × (at pkt (j + 1) ≡ 4) × (j + 4 ≤ end)

abbrev pub mss_at : Packet → ℕ → ℕ
mss_at pkt j = be_u16 (at pkt (j + 2)) (at pkt (j + 3))

where_is : (k i : ℕ) → ((k < i + 2) ⊎ (i + 4 ≤ k)) ⊎ ((k ≡ i + 2) ⊎ (k ≡ i + 3))
where_is k i = ground arith

module _ (end max_mss : ℕ) where
  pub HasOption-from : (pkt : Packet) (i j : ℕ) → HasOption pkt end i j → i ≤ j
  HasOption-from pkt i j (here room) = omega arith
  HasOption-from pkt i j (after_nop room kind rest) =
      let below = HasOption-from pkt (i + 1) j rest in omega arith
  HasOption-from pkt i j (after_option {len = len} room k₀ k₁ l two fits rest) =
      let below = HasOption-from pkt (i + len) j rest in omega arith

  -- Only the bytes from `i` on matter.
  HasOption-same :
      (p q : Packet) (i j : ℕ)
      → ((k : ℕ) → i ≤ k → at q k ≡ at p k)
      → HasOption p end i j
      → HasOption q end i j
  HasOption-same p q i j same (here room) = here room
  HasOption-same p q i j same (after_nop room kind rest) =
      after_nop room (same i (omega arith) ∙ kind)
        (HasOption-same p q (i + 1) j (λ k h. same k (omega arith)) rest)
  HasOption-same p q i j same (after_option {len = len} room k₀ k₁ l two fits rest) =
      after_option room (λ e. k₀ (sym (same i (omega arith)) ∙ e))
        (λ e. k₁ (sym (same i (omega arith)) ∙ e)) (same (i + 1) (omega arith) ∙ l) two fits
        (HasOption-same p q (i + len) j (λ k h. same k (omega arith)) rest)

  round-at_nop : (pkt : Packet) (i : ℕ) → i + 1 < end → at pkt i ≡ 1 → round pkt i end ≡ nop
  unfolding round
  round-at_nop pkt i room kind = ground arith

  round-at_option :
      (pkt : Packet) (i len : ℕ)
      → i + 1 < end
      → at pkt i ≢ 0
      → at pkt i ≢ 1
      → at pkt (i + 1) ≡ len
      → 2 ≤ len
      → i + len ≤ end
      → round pkt i end ≡ option len
  unfolding round
  round-at_option pkt i len room k₀ k₁ l two fits = ground arith

  mss_at-lower :
      (pkt : Packet) (i : ℕ)
      → i + 3 < length pkt
      → at pkt i ≡ 2
      → at pkt (i + 1) ≡ 4
      → mss_at (lower pkt i max_mss) i ≡ min (mss_at pkt i) max_mss
  mss_at-lower pkt i fits k l = elim (Bool-cases (exceeds pkt i max_mss)) [
    | inr no_excess ↦ rw no_excess (ground arith)
    | inl excess ↦ rw excess (
        ground (
          arith,
          get_or-set_ne (set pkt (i + 2) (max_mss / 256)) (i + 2 + 1) (i + 2) (max_mss % 256) 0,
          get_or-set_self pkt (i + 2) (max_mss / 256) 0,
          get_or-set_self (set pkt (i + 2) (max_mss / 256)) (i + 2 + 1) (max_mss % 256) 0,
          length-set pkt (i + 2) (max_mss / 256),
        ))
  ]

  -- Every MSS option that the walk meets has the smaller of its value and the limit afterwards.
  pub walk-mss_at :
      (fuel : ℕ) (pkt : Packet) (i : ℕ) (changed : Bool) (q : Packet) (c : Bool) (j : ℕ)
      → end ≤ length pkt
      → walk fuel pkt i end max_mss changed ≡ some (q, c)
      → HasOption pkt end i j
      → IsMssAt pkt end j
      → mss_at q j ≡ min (mss_at pkt j) max_mss
  unfolding walk
  walk-mss_at zero pkt i changed q c j fits h o m = absurd (cc)
  walk-mss_at (suc fuel) pkt i changed q c j fits h (here room) (k, l, within) =
      let e =
        round-at_option pkt i 4 room (omega (arith, k)) (omega (arith, k)) l (omega arith) within in
      let inner =
        walk-Framed end max_mss fuel (lower pkt i max_mss) (i + 4)
          (changed || exceeds pkt i max_mss) q c (rw (e, walk) at h) in
      ap₂ be_u16 (inner.before (i + 2) (omega arith)) (inner.before (i + 3) (omega arith))
      ∙ mss_at-lower pkt i (omega arith) k l
  walk-mss_at (suc fuel) pkt i changed q c j fits h (after_nop room kind rest) m =
      walk-mss_at fuel pkt (i + 1) changed q c j fits (rw (round-at_nop pkt i room kind, walk) at h)
        rest m
  walk-mss_at (suc fuel) pkt i changed q c j fits h
        (after_option {len = len} room k₀ k₁ l two below rest) m =
      let e = round-at_option pkt i len room k₀ k₁ l two below in
      let low = lower pkt i max_mss in
      let far : (k : ℕ) → i + len ≤ k → at low k ≡ at pkt k =
        λ k r. at-lower_far end max_mss pkt i k (sym l) r in
      let past = HasOption-from pkt (i + len) j rest in
      walk-mss_at fuel low (i + len) (changed || exceeds pkt i max_mss) q c j
        (omega (arith, length-lower end max_mss pkt i)) (rw (e, walk) at h)
        (HasOption-same pkt low (i + len) j far rest)
        (far j past ∙ m.0, far (j + 1) (omega arith) ∙ m.1, m.2)
      ∙ ap (λ v. min v max_mss) (ap₂ be_u16 (far (j + 2) (omega arith)) (far (j + 3) (omega arith)))

  -- A byte that the walk changes is of the value of an MSS option above the limit.
  abbrev pub IsLowered : Packet → ℕ → ℕ → Type 0
  IsLowered pkt i k =
      (j : ℕ) × HasOption pkt end i j
      × IsMssAt pkt end j
      × (max_mss < mss_at pkt j)
      × ((k ≡ j + 2) ⊎ (k ≡ j + 3))

  nop_kind : (pkt : Packet) (i : ℕ) → round pkt i end ≡ nop → at pkt i ≡ 1
  unfolding round
  nop_kind pkt i e = ground arith

  option_kind :
      (pkt : Packet) (i len : ℕ)
      → round pkt i end ≡ option len
      → (i + 1 < end) × (at pkt i ≢ 0) × (at pkt i ≢ 1)
  unfolding round
  option_kind pkt i len e = (ground arith, λ z. ground arith, λ z. ground arith)

  excess_kind :
      (pkt : Packet) (i : ℕ)
      → exceeds pkt i max_mss ≡ true
      → (at pkt i ≡ 2) × (at pkt (i + 1) ≡ 4) × (max_mss < mss_at pkt i)
  excess_kind pkt i e = (ground arith, ground arith, ground arith)

  -- Of the bytes, one round changes the value of the option at `i` only.
  lower-elsewhere :
      (pkt : Packet) (i len k : ℕ)
      → round pkt i end ≡ option len
      → (at (lower pkt i max_mss) k ≡ at pkt k) ⊎ IsLowered pkt i k
  lower-elsewhere pkt i len k e = elim (Bool-cases (exceeds pkt i max_mss)) [
    | inr no_excess ↦ inl (ap (λ b. at (if b then set_be pkt (i + 2) max_mss else pkt) k) no_excess)
    | inl excess ↦
        let (room, k₀, k₁) = option_kind pkt i len e in
        let (two, below, l) = round-option pkt i end len e in
        let (kind, four, above) = excess_kind pkt i excess in
        let m : IsMssAt pkt end i = (kind, four, omega arith) in
        elim (where_is k i) [
          | inl away ↦ inl (at-lower end max_mss pkt i k away)
          | inr value ↦ inr (i, here room, m, above, value)
        ]
  ]

  -- What is lowered behind the option at `i` is lowered in the packet as it was.
  later-IsLowered :
      (pkt : Packet) (i len k : ℕ)
      → round pkt i end ≡ option len
      → IsLowered (lower pkt i max_mss) (i + len) k
      → IsLowered pkt i k
  later-IsLowered pkt i len k e (j, o, m, above, value) =
      let (room, k₀, k₁) = option_kind pkt i len e in
      let (two, below, l) = round-option pkt i end len e in
      let low = lower pkt i max_mss in
      let far : (n : ℕ) → i + len ≤ n → at pkt n ≡ at low n =
        λ n r. sym (at-lower_far end max_mss pkt i n l r) in
      let past = HasOption-from low (i + len) j o in
      let value_same : mss_at pkt j ≡ mss_at low j =
        ap₂ be_u16 (far (j + 2) (omega arith)) (far (j + 3) (omega arith)) in
      (
        j,
        after_option room k₀ k₁ (sym l) two below (HasOption-same low pkt (i + len) j far o),
        (far j past ∙ m.0, far (j + 1) (omega arith) ∙ m.1, m.2),
        rw value_same above,
        value,
      )

  pub walk-elsewhere :
      (fuel : ℕ) (pkt : Packet) (i : ℕ) (changed : Bool) (q : Packet) (c : Bool)
      → walk fuel pkt i end max_mss changed ≡ some (q, c)
      → (k : ℕ) → (at q k ≡ at pkt k) ⊎ IsLowered pkt i k
  unfolding walk
  walk-elsewhere zero pkt i changed q c h k = absurd (cc)
  walk-elsewhere (suc fuel) pkt i changed q c h k =
      elim (walk-Steps end max_mss fuel pkt i changed q c h) [
        | inl (e, same, flag) ↦ inl (ap (λ (x : Packet). at x k) (sym same))
        | inr (inl (e, rest)) ↦ elim (walk-elsewhere fuel pkt (i + 1) changed q c rest k) [
          | inl same ↦ inl same
          | inr (j, o, m, above, value) ↦
              inr (j, after_nop (round-nop pkt i end e) (nop_kind pkt i e) o, m, above, value)
        ]
        | inr (inr (len, e, rest)) ↦
            let low = lower pkt i max_mss in
            elim (walk-elsewhere fuel low (i + len) (changed || exceeds pkt i max_mss) q c rest k) [
              | inl same ↦ elim (lower-elsewhere pkt i len k e) [
                | inl here_too ↦ inl (same ∙ here_too)
                | inr lowered ↦ inr lowered
              ]
              | inr later ↦ inr (later-IsLowered pkt i len k e later)
            ]
      ]
