-- ===== src/Packet/Mss/Clamped.antt =====
-- MSS clamping as a whole (router.rs: `clamp_tcp_mss`).
use nullgate.Common.{
  ℕ, ◌+◌, ◌%◌, ◌≤◌, ◌<◌, ◌≡◌, ◌≢◌, ◌∙◌, ◌⊎◌, inl, inr, ap₂, min, ◌/◌, refl, Bool, true, false, some,
  arith, length, Bool-cases,
}
use nullgate.Packet.{Packet, at, header_len, be_u16}
use nullgate.Packet.Checksum.{recompute_tcp_checksum}
use nullgate.Packet.Checksum.Words.{IsBytes}
use nullgate.Packet.Checksum.Valid.{
  plain_sum, recompute_tcp_checksum_valid, at-recompute, length-recompute,
}
use nullgate.Packet.Mss.{walk, data_offset, is_tcp_syn, refresh, clamp_options, clamp_tcp_mss}
use nullgate.Packet.Mss.Options.{
  HasOption, IsMssAt, mss_at, HasOption-from, walk-mss_at, IsLowered, walk-elsewhere,
}
use nullgate.Packet.Mss.Walk.{walk_total, walk-Framed, walk-again, walk-IsBytes}

-- What the checks establish.
pub record Checked (pkt : Packet) : Type 0 where
  pub header : 20 ≤ header_len pkt
  pub tcp_header : header_len pkt + 20 ≤ length pkt
  pub offset : 20 ≤ data_offset pkt (header_len pkt)
  pub options : header_len pkt + data_offset pkt (header_len pkt) ≤ length pkt

pub is_tcp_syn-Checked : (pkt : Packet) → is_tcp_syn pkt ≡ true → Checked pkt
unfolding is_tcp_syn
is_tcp_syn-Checked pkt e = record {
  header = ground arith;
  tcp_header = ground arith;
  offset = ground arith;
  options = ground arith;
}

is_tcp_syn-same :
    (q pkt : Packet)
    → length q ≡ length pkt
    → ((j : ℕ) → j < header_len pkt + 16 → at q j ≡ at pkt j)
    → 20 ≤ header_len pkt
    → is_tcp_syn q ≡ is_tcp_syn pkt
unfolding is_tcp_syn
is_tcp_syn-same q pkt len same h =
    rw
      (
        len,
        same 0 (omega arith),
        same 9 (omega arith),
        same (header_len pkt + 12) (omega arith),
        same (header_len pkt + 13) (omega arith),
      )
      refl

header_len-same : (q pkt : Packet) → at q 0 ≡ at pkt 0 → header_len q ≡ header_len pkt
header_len-same q pkt e = rw e

-- A TCP segment over IPv4 with the SYN flag, whose headers fit in the packet.
pub record IsSyn (pkt : Packet) : Type 0 where
  pub ipv4 : at pkt 0 / 16 ≡ 4
  pub tcp : at pkt 9 ≡ 6
  pub fits : Checked pkt
  pub syn : at pkt (header_len pkt + 13) / 2 % 2 ≡ 1

is_tcp_syn-IsSyn : (pkt : Packet) → is_tcp_syn pkt ≡ true → IsSyn pkt
unfolding is_tcp_syn
is_tcp_syn-IsSyn pkt e = record {
  ipv4 = ground arith;
  tcp = ground arith;
  fits = is_tcp_syn-Checked pkt e;
  syn = ground arith;
}

IsSyn-is_tcp_syn : (pkt : Packet) → IsSyn pkt → is_tcp_syn pkt ≡ true
unfolding is_tcp_syn
IsSyn-is_tcp_syn pkt s =
    ground
      (arith, s.ipv4, s.tcp, s.syn, s.fits.header, s.fits.tcp_header, s.fits.offset, s.fits.options)

-- Where the options end.
abbrev pub options_end : Packet → ℕ
options_end pkt = header_len pkt + data_offset pkt (header_len pkt)

-- What `clamp_tcp_mss` promises of its result.
pub record IsClamped (pkt : Packet) (max_mss : ℕ) (q : Packet) (changed : Bool) : Type 0 where
  pub same_length : length q ≡ length pkt
  pub not_syn : (IsSyn pkt → ⊥) → q ≡ pkt
  pub values :
      IsSyn pkt
      → (j : ℕ) → HasOption pkt (options_end pkt) (header_len pkt + 20) j
      → IsMssAt pkt (options_end pkt) j
      → mss_at q j ≡ min (mss_at pkt j) max_mss
  -- apart from the checksum
  pub elsewhere :
      (k : ℕ)
      → k ≢ header_len pkt + 16
      → k ≢ header_len pkt + 17
      → (at q k ≡ at pkt k) ⊎ IsLowered (options_end pkt) max_mss pkt (header_len pkt + 20) k
  pub untouched : changed ≡ false → q ≡ pkt
  pub settled : clamp_tcp_mss q max_mss ≡ some (q, false)
  pub checksum : changed ≡ true → plain_sum q (header_len pkt) % 65535 ≡ 0

-- The headers stay as they are, apart from the checksum.
pub headers-IsClamped :
    (pkt q : Packet) (max_mss k : ℕ) (changed : Bool)
    → IsClamped pkt max_mss q changed
    → k < header_len pkt + 16
    → at q k ≡ at pkt k
headers-IsClamped pkt q max_mss k changed c below =
    elim (c.elsewhere k (λ e. omega arith) (λ e. omega arith)) [
      | inl same ↦ same
      | inr (j, o, m, above, value) ↦
          let past = HasOption-from (options_end pkt) max_mss pkt (header_len pkt + 20) j o in
          absurd (ground (arith, value, past))
    ]

module _ (pkt : Packet) (max_mss : ℕ) (bytes : IsBytes pkt) (short : length pkt ≤ 65535)
    (small : max_mss < 65536) where
  module _ (syn : is_tcp_syn pkt ≡ true) (r : Packet) where
    abbrev end : ℕ
    end = header_len pkt + data_offset pkt (header_len pkt)

    -- A packet with the checked part of `pkt` and the walked options.
    settle :
        (c : Bool) (q : Packet)
        → walk end pkt (header_len pkt + 20) end max_mss false ≡ some (r, c)
        → length q ≡ length pkt
        → ((j : ℕ) → j < header_len pkt + 16 → at q j ≡ at pkt j)
        → ((j : ℕ) → header_len pkt + 20 ≤ j → at q j ≡ at r j)
        → clamp_tcp_mss q max_mss ≡ some (q, false)
    unfolding clamp_tcp_mss clamp_options
    settle c q h len same walked =
        let k = is_tcp_syn-Checked pkt syn in
        rw
          (
            is_tcp_syn-same q pkt len same k.header ∙ syn,
            header_len-same q pkt (same 0 (omega (arith, k.header))),
            same (header_len pkt + 12) (omega arith),
            walk-again end max_mss end pkt (header_len pkt + 20) false r c q small k.options h
                walked,
          )
          refl

    -- The values in the walked packet `r`, and in one that has the options of `r`.
    clamped_values :
        (c : Bool) (q : Packet)
        → walk end pkt (header_len pkt + 20) end max_mss false ≡ some (r, c)
        → ((j : ℕ) → header_len pkt + 20 ≤ j → at q j ≡ at r j)
        → (j : ℕ) → HasOption pkt end (header_len pkt + 20) j
        → IsMssAt pkt end j
        → mss_at q j ≡ min (mss_at pkt j) max_mss
    clamped_values c q h same j o m =
        let k = is_tcp_syn-Checked pkt syn in
        let past = HasOption-from end max_mss pkt (header_len pkt + 20) j o in
        ap₂ be_u16 (same (j + 2) (omega arith)) (same (j + 3) (omega arith))
        ∙ walk-mss_at end max_mss end pkt (header_len pkt + 20) false r c j k.options h o m

    walked-IsClamped :
        (c : Bool)
        → walk end pkt (header_len pkt + 20) end max_mss false ≡ some (r, c)
        → IsClamped pkt max_mss (refresh (header_len pkt) (r, c)).0 c
    walked-IsClamped false h =
        let frame = walk-Framed end max_mss end pkt (header_len pkt + 20) false r false h in
        record {
          same_length = frame.same_length;
          not_syn = λ no. absurd (no (is_tcp_syn-IsSyn pkt syn));
          values = λ s. clamped_values false r h (λ j p. refl);
          elsewhere =
              λ k _ _. walk-elsewhere end max_mss end pkt (header_len pkt + 20) false r false h k;
          untouched = λ e. (frame.untouched refl).1;
          settled =
              settle false r h frame.same_length (λ j p. frame.before j (omega arith))
                (λ j p. refl);
          checksum = λ e. absurd (cc);
        }
    walked-IsClamped true h =
        let k = is_tcp_syn-Checked pkt syn in
        let ihl : ℕ = header_len pkt in
        let frame = walk-Framed end max_mss end pkt (ihl + 20) false r true h in
        let keeps : (j : ℕ) → j < ihl + 16 → at (recompute_tcp_checksum r ihl) j ≡ at pkt j = λ j p.
          at-recompute r ihl j (λ e. omega arith) (λ e. omega arith)
          ∙ frame.before j (omega arith) in
        let rest : (j : ℕ) → ihl + 20 ≤ j → at (recompute_tcp_checksum r ihl) j ≡ at r j =
          λ j p. at-recompute r ihl j (λ e. omega arith) (λ e. omega arith) in
        let len = length-recompute r ihl ∙ frame.same_length in
        record {
          same_length = len;
          not_syn = λ no. absurd (no (is_tcp_syn-IsSyn pkt syn));
          values = λ s. clamped_values true (recompute_tcp_checksum r ihl) h rest;
          elsewhere = λ n hi lo.
              elim (walk-elsewhere end max_mss end pkt (ihl + 20) false r true h n) [
                | inl same ↦ inl (at-recompute r ihl n hi lo ∙ same)
                | inr lowered ↦ inr lowered
              ];
          untouched = λ e. absurd (cc);
          settled = settle true (recompute_tcp_checksum r ihl) h len keeps rest;
          checksum = λ _.
              recompute_tcp_checksum_valid r ihl
                (walk-IsBytes end max_mss end pkt (ihl + 20) false r true small bytes h)
                (omega (arith, frame.same_length)) k.header
                (omega (arith, frame.same_length, k.tcp_header));
        }

    refreshed :
        (c : Bool)
        → walk end pkt (header_len pkt + 20) end max_mss false ≡ some (r, c)
        → (q : Packet) × (changed : Bool) × (clamp_tcp_mss pkt max_mss ≡ some (q, changed))
          × IsClamped pkt max_mss q changed
    unfolding clamp_tcp_mss clamp_options
    refreshed false h = (r, false, rw (syn, h) refl, walked-IsClamped false h)
    refreshed true h =
        (recompute_tcp_checksum r (header_len pkt), true, rw (syn, h) refl, walked-IsClamped true h)

  -- `clamp_tcp_mss` ends on every packet of at most 65535 bytes, for a limit of 16 bits. A packet
  -- that is not a TCP SYN over IPv4 with whole headers is left as it is. In a SYN, every MSS option
  -- of length 4 has afterwards the smaller of its value and the limit, and no byte is changed but
  -- these values where they are above the limit, and the TCP checksum. The result has the length of
  -- the packet, and is the packet itself if nothing changed. If something changed, the checksum is
  -- valid, and a second call changes nothing.
  pub clamp_tcp_mss_correct :
      (q : Packet) × (changed : Bool) × (clamp_tcp_mss pkt max_mss ≡ some (q, changed))
      × IsClamped pkt max_mss q changed
  unfolding clamp_tcp_mss
  clamp_tcp_mss_correct = elim (Bool-cases (is_tcp_syn pkt)) [
    | inr no_syn ↦ (
      pkt,
      false,
      rw no_syn,
      record {
        same_length = refl;
        not_syn = λ no. refl;
        values = λ s. absurd (ground (arith, IsSyn-is_tcp_syn pkt s));
        elsewhere = λ k _ _. inl refl;
        untouched = λ e. refl;
        settled = rw no_syn;
        checksum = λ e. absurd (cc);
      },
    )
    | inl syn ↦
        let k = is_tcp_syn-Checked pkt syn in
        let stop : ℕ = header_len pkt + data_offset pkt (header_len pkt) in
        let ((r, c), h) =
          walk_total stop max_mss stop pkt (header_len pkt + 20) false (omega (arith, k.header))
            (omega arith) in
        refreshed syn r c h
  ]
