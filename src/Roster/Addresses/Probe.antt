-- ===== src/Roster/Addresses/Probe.antt =====
-- The probing loop of `assign_ips` (roster.rs): it stays in 2..=254 and ends on a free host
-- while any is left.
use nullgate.Common.{
  ℕ, zero, suc, ◌+◌, ◌-◌, ◌≤◌, ◌<◌, ◌≡◌, refl, true, false, arith, leb, if◌then◌else◌, length,
  Bool-cases, inl, inr,
}
use nullgate.Common.Maps.{IdSet, contains}
use nullgate.Common.Sets.{length-ge_of_range}
use nullgate.Roster.Addresses.{next_host, probe}

abbrev pub InRange : ℕ → Type 0
InRange h = (2 ≤ h) × (h ≤ 254)

pub probe-InRange : (n : ℕ) (taken : IdSet) (h : ℕ) → InRange h → InRange (probe n taken h)
unfolding probe
probe-InRange zero taken h r = r
probe-InRange (suc n) taken h r = ground (arith, probe-InRange n taken (next_host h))

-- The host after `k` steps from `h`.
abbrev nth_host : ℕ → ℕ → ℕ
nth_host h k = if leb (h + k) 254 then h + k else h + k - 253

probe-walk :
    (n : ℕ) (taken : IdSet) (h k : ℕ)
    → InRange h
    → k ≤ n
    → n ≤ 253
    → contains (probe n taken h) taken ≡ true
    → contains (nth_host h k) taken ≡ true
unfolding probe
probe-walk zero taken h k r p q e = ground arith
probe-walk (suc n) taken h zero r p q e = ground arith
probe-walk (suc n) taken h (suc k) r p q e = ground (arith, probe-walk n taken (next_host h) k)

-- With fewer than 253 hosts taken, the probe ends on a free one.
pub probe_free :
    (taken : IdSet) (h : ℕ)
    → InRange h
    → length taken < 253
    → contains (probe 253 taken h) taken ≡ false
probe_free taken h r few = elim (Bool-cases (contains (probe 253 taken h) taken)) [
  | inr free ↦ free
  | inl full ↦
      let all : (x : ℕ) → 2 ≤ x → x < 2 + 253 → contains x taken ≡ true = λ x p q. ground (
        arith,
        probe-walk 253 taken h (x - h) r (omega arith) (omega arith) full,
        probe-walk 253 taken h (x + 253 - h) r,
      ) in
      absurd (omega (arith, length-ge_of_range 253 2 taken all))
]

-- A free host is kept.
pub probe-fixed : (n : ℕ) (taken : IdSet) (h : ℕ) → contains h taken ≡ false → probe n taken h ≡ h
unfolding probe
probe-fixed zero taken h e = refl
probe-fixed (suc n) taken h e = rw e
