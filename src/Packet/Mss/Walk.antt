-- ===== src/Packet/Mss/Walk.antt =====
-- The walk over the TCP options ends, changes MSS values only, and leaves none above the limit
-- (router.rs: `clamp_tcp_mss`).
use nullgate.Common.{
  ℕ, zero, suc, ◌+◌, ◌/◌, ◌%◌, ◌≤◌, ◌<◌, ◌≡◌, ◌∙◌, ◌⊎◌, inl, inr, refl, sym, ap, subst, Bool, false,
  ◌||◌, some, arith, length, length-set, get_or-set_ne, get_or-set_self, Bool-cases, set,
}
use nullgate.Packet.{Packet, at}
use nullgate.Packet.Checksum.Words.{IsBytes}
use nullgate.Packet.Checksum.Valid.{set-IsBytes}
use mathlib.Core.Option.{some-injective}
use nullgate.Packet.Mss.{exceeds, lower, Round, stop, nop, option, round, walk}

-- What a round says of the walk.
pub round-option :
    (pkt : Packet) (i end len : ℕ)
    → round pkt i end ≡ option len
    → (2 ≤ len) × (i + len ≤ end) × (len ≡ at pkt (i + 1))
unfolding round
round-option pkt i end len e = ground arith

pub round-nop : (pkt : Packet) (i end : ℕ) → round pkt i end ≡ nop → i + 1 < end
unfolding round
round-nop pkt i end e = ground arith

Round-cases : (r : Round) → ((r ≡ stop) ⊎ (r ≡ nop)) ⊎ ((len : ℕ) × (r ≡ option len))
Round-cases stop = inl (inl refl)
Round-cases nop = inl (inr refl)
Round-cases (option len) = inr (len, refl)

module _ (end max_mss : ℕ) where
  -- The walk ends with fuel left over.
  pub walk_total :
      (fuel : ℕ) (pkt : Packet) (i : ℕ) (changed : Bool)
      → 0 < fuel
      → end ≤ fuel + i
      → (r : Packet × Bool) × (walk fuel pkt i end max_mss changed ≡ some r)
  unfolding walk
  walk_total zero pkt i changed pos h = absurd (omega arith)
  walk_total (suc fuel) pkt i changed pos h = elim (Round-cases (round pkt i end)) [
    | inl (inl e) ↦ ((pkt, changed), rw (e, walk))
    | inl (inr e) ↦
        let more = round-nop pkt i end e in
        rw (e, walk) (walk_total fuel pkt (i + 1) changed (omega arith) (omega arith))
    | inr (len, e) ↦
        let facts = round-option pkt i end len e in
        rw (e, walk)
          (walk_total fuel (lower pkt i max_mss) (i + len) (changed || exceeds pkt i max_mss)
            (omega arith) (omega arith))
  ]

  -- An equation of the walk for each kind of round.
  abbrev pub Steps : ℕ → Packet → ℕ → Bool → Packet → Bool → Type 0
  Steps fuel pkt i changed q c =
      ((round pkt i end ≡ stop) × (pkt ≡ q) × (changed ≡ c))
      ⊎ (((round pkt i end ≡ nop) × (walk fuel pkt (i + 1) end max_mss changed ≡ some (q, c)))
          ⊎ ((len : ℕ) × (round pkt i end ≡ option len)
              × (walk fuel (lower pkt i max_mss) (i + len) end max_mss
                    (changed || exceeds pkt i max_mss)
                  ≡ some (q, c))))

  pub walk-Steps :
      (fuel : ℕ) (pkt : Packet) (i : ℕ) (changed : Bool) (q : Packet) (c : Bool)
      → walk (suc fuel) pkt i end max_mss changed ≡ some (q, c)
      → Steps fuel pkt i changed q c
  unfolding walk
  walk-Steps fuel pkt i changed q c h = elim (Round-cases (round pkt i end)) [
    | inl (inl e) ↦
        let same : some (pkt, changed) ≡ some (q, c) = rw (e, walk) at h in
        let pair = some-injective _ _ same in
        inl (e, ap (λ (x : Packet × Bool). x.0) pair, ap (λ (x : Packet × Bool). x.1) pair)
    | inl (inr e) ↦ inr (inl (e, rw (e, walk) at h))
    | inr (len, e) ↦ inr (inr (len, e, rw (e, walk) at h))
  ]

  pub at-lower :
      (pkt : Packet) (i j : ℕ) → (j < i + 2) ⊎ (i + 4 ≤ j) → at (lower pkt i max_mss) j ≡ at pkt j
  at-lower pkt i j h = ground (
    arith,
    get_or-set_ne (set pkt (i + 2) (max_mss / 256)) (i + 2 + 1) j (max_mss % 256) 0,
    get_or-set_ne pkt (i + 2) j (max_mss / 256) 0,
  )

  -- An option of length 4 ends before `j`.
  pub at-lower_far :
      {len : ℕ} (pkt : Packet) (i j : ℕ)
      → len ≡ at pkt (i + 1)
      → i + len ≤ j
      → at (lower pkt i max_mss) j ≡ at pkt j
  at-lower_far pkt i j e h = ground (
    arith,
    get_or-set_ne (set pkt (i + 2) (max_mss / 256)) (i + 2 + 1) j (max_mss % 256) 0,
    get_or-set_ne pkt (i + 2) j (max_mss / 256) 0,
  )

  pub length-lower : (pkt : Packet) (i : ℕ) → length (lower pkt i max_mss) ≡ length pkt
  length-lower pkt i = ground (
    arith,
    length-set (set pkt (i + 2) (max_mss / 256)) (i + 2 + 1) (max_mss % 256),
    length-set pkt (i + 2) (max_mss / 256),
  )

  -- What the walk leaves alone.
  pub record Framed (pkt : Packet) (i : ℕ) (changed : Bool) (q : Packet) (c : Bool) : Type 0 where
    pub same_length : length q ≡ length pkt
    pub before : (j : ℕ) → j < i + 2 → at q j ≡ at pkt j
    pub behind : (j : ℕ) → end ≤ j → at q j ≡ at pkt j
    pub untouched : c ≡ false → (changed ≡ false) × (q ≡ pkt)

  pub walk-Framed :
      (fuel : ℕ) (pkt : Packet) (i : ℕ) (changed : Bool) (q : Packet) (c : Bool)
      → walk fuel pkt i end max_mss changed ≡ some (q, c)
      → Framed pkt i changed q c
  unfolding walk
  walk-Framed zero pkt i changed q c h = absurd (cc)
  walk-Framed (suc fuel) pkt i changed q c h = elim (walk-Steps fuel pkt i changed q c h) [
    | inl (e, same, flag) ↦ record {
      same_length = ap length (sym same);
      before = λ j p. ap (λ (x : Packet). at x j) (sym same);
      behind = λ j p. ap (λ (x : Packet). at x j) (sym same);
      untouched = λ f. (flag ∙ f, sym same);
    }
    | inr (inl (e, rest)) ↦
        let r = walk-Framed fuel pkt (i + 1) changed q c rest in
        record {
          same_length = r.same_length;
          before = λ j p. r.before j (omega arith);
          behind = r.behind;
          untouched = r.untouched;
        }
    | inr (inr (len, e, rest)) ↦
        let facts = round-option pkt i end len e in
        let r =
          walk-Framed fuel (lower pkt i max_mss) (i + len) (changed || exceeds pkt i max_mss) q c
            rest in
        record {
          same_length = r.same_length ∙ length-lower pkt i;
          before = λ j p. r.before j (omega arith) ∙ at-lower pkt i j (inl p);
          behind = λ j p. r.behind j p ∙ at-lower_far pkt i j facts.2 (omega arith);
          untouched = λ f. ground (arith, r.untouched f);
        }
  ]

  round-same :
      (p q : Packet) (i : ℕ)
      → at p i ≡ at q i
      → at p (i + 1) ≡ at q (i + 1)
      → round p i end ≡ round q i end
  unfolding round
  round-same p q i e f = rw (e, f)

  exceeds-same :
      (p q : Packet) (i : ℕ)
      → at p i ≡ at q i
      → at p (i + 1) ≡ at q (i + 1)
      → (at q (i + 1) ≡ 4 → (at p (i + 2) ≡ at q (i + 2)) × (at p (i + 3) ≡ at q (i + 3)))
      → exceeds q i max_mss ≡ false
      → exceeds p i max_mss ≡ false
  exceeds-same p q i e f g h = ground arith

  exceeds-lower :
      (pkt : Packet) (i : ℕ)
      → max_mss < 65536
      → (at pkt (i + 1) ≡ 4 → i + 3 < length pkt)
      → exceeds (lower pkt i max_mss) i max_mss ≡ false
  exceeds-lower pkt i small fits = elim (Bool-cases (exceeds pkt i max_mss)) [
    | inr no_excess ↦ rw no_excess no_excess
    | inl excess ↦
        let room : i + 3 < length pkt = fits (ground arith) in
        rw excess (
          ground (
            arith,
            get_or-set_ne (set pkt (i + 2) (max_mss / 256)) (i + 2 + 1) (i + 2) (max_mss % 256) 0,
            get_or-set_self pkt (i + 2) (max_mss / 256) 0,
            get_or-set_self (set pkt (i + 2) (max_mss / 256)) (i + 2 + 1) (max_mss % 256) 0,
            length-set pkt (i + 2) (max_mss / 256),
          ))
  ]

  -- A second walk over the result changes nothing, nor does one over any packet that has the
  -- bytes of the result from `i` on.
  pub walk-again :
      (fuel : ℕ) (pkt : Packet) (i : ℕ) (changed : Bool) (q : Packet) (c : Bool) (p : Packet)
      → max_mss < 65536
      → end ≤ length pkt
      → walk fuel pkt i end max_mss changed ≡ some (q, c)
      → ((j : ℕ) → i ≤ j → at p j ≡ at q j)
      → walk fuel p i end max_mss false ≡ some (p, false)
  unfolding walk
  walk-again zero pkt i changed q c p small fits h same = absurd (cc)
  walk-again (suc fuel) pkt i changed q c p small fits h same =
      let frame = walk-Framed (suc fuel) pkt i changed q c h in
      let first : at p i ≡ at pkt i = same i (omega arith) ∙ frame.before i (omega arith) in
      let second : at p (i + 1) ≡ at pkt (i + 1) =
        same (i + 1) (omega arith) ∙ frame.before (i + 1) (omega arith) in
      let again = round-same p pkt i first second in
      elim (walk-Steps fuel pkt i changed q c h) [
        | inl (e, _, _) ↦ rw (again ∙ e, walk)
        | inr (inl (e, rest)) ↦
            rw (again ∙ e, walk)
              (walk-again fuel pkt (i + 1) changed q c p small fits rest
                (λ j r. same j (omega arith)))
        | inr (inr (len, e, rest)) ↦
            let facts = round-option pkt i end len e in
            let inner =
              walk-Framed fuel (lower pkt i max_mss) (i + len) (changed || exceeds pkt i max_mss) q
                c rest in
            let here = at-lower pkt i i (inl (omega arith)) in
            let there = at-lower pkt i (i + 1) (inl (omega arith)) in
            let low : exceeds (lower pkt i max_mss) i max_mss ≡ false =
              exceeds-lower pkt i small (λ four. omega arith) in
            let quiet : exceeds p i max_mss ≡ false =
              exceeds-same p (lower pkt i max_mss) i (first ∙ sym here) (second ∙ sym there)
                (λ four. (
                  same (i + 2) (omega arith) ∙ inner.before (i + 2) (omega (arith, there)),
                  same (i + 3) (omega arith) ∙ inner.before (i + 3) (omega (arith, there)),
                ))
                low in
            let next =
              walk-again fuel (lower pkt i max_mss) (i + len) (changed || exceeds pkt i max_mss) q c
                p small (omega (arith, length-lower pkt i)) rest (λ j r. same j (omega arith)) in
            rw (again ∙ e, walk) (rw quiet next)
      ]

  pub walk-IsBytes :
      (fuel : ℕ) (pkt : Packet) (i : ℕ) (changed : Bool) (q : Packet) (c : Bool)
      → max_mss < 65536
      → IsBytes pkt
      → walk fuel pkt i end max_mss changed ≡ some (q, c)
      → IsBytes q
  unfolding walk
  walk-IsBytes zero pkt i changed q c small b h = absurd (cc)
  walk-IsBytes (suc fuel) pkt i changed q c small b h = elim (walk-Steps fuel pkt i changed q c h) [
    | inl (e, same, flag) ↦ subst IsBytes same b
    | inr (inl (e, rest)) ↦ walk-IsBytes fuel pkt (i + 1) changed q c small b rest
    | inr (inr (len, e, rest)) ↦
        let lowered : IsBytes (lower pkt i max_mss) = elim (Bool-cases (exceeds pkt i max_mss)) [
          | inr no_excess ↦ rw no_excess b
          | inl excess ↦ rw excess (
              set-IsBytes (set pkt (i + 2) (max_mss / 256)) (i + 2 + 1) (max_mss % 256)
                (omega arith) (set-IsBytes pkt (i + 2) (max_mss / 256) (omega arith) b))
        ] in
        walk-IsBytes fuel (lower pkt i max_mss) (i + len) (changed || exceeds pkt i max_mss) q c
          small lowered rest
  ]
