-- ===== src/Conntrack/Flows.antt =====
-- The table against one flow at a time (conntrack.rs).
use nullgate.Common.{
  ℕ, ◌≡◌, refl, Bool, true, false, ◌&&◌, ◌||◌, Option, none, some, List, [], ◌∷◌, arith, ◌==◌,
  if◌then◌else◌, Option-cases, inl, inr,
}
use nullgate.Common.HashMap.{
  get, only, DistinctKeys, get-put, get-update, get-keep, put-DistinctKeys, update-DistinctKeys,
  keep-DistinctKeys,
}
use nullgate.Packet.{Packet, FlowKey, flow_key, reversed, is_tcp_initiation}
use nullgate.Conntrack.{
  Conntrack, default, flow_key_eq, flow_key_key, record_flow, record_outbound, is_fresh, seen_fresh,
  allows_inbound, sweep, clear,
}
use mathlib.Core.Option

-- A call that changes the table.
pub data Event : Type 0 where
  outbound : Packet → ℕ → Event
  sweeps : ℕ → Event
  clears : Event

unfoldable pub apply : Conntrack → Event → Conntrack
unfolding record_outbound sweep clear
apply ct (outbound pkt now) = record_outbound ct pkt now
apply ct (sweeps now) = sweep ct now
apply ct clears = clear ct

unfoldable pub play : Conntrack → List Event → Conntrack
play ct [] = ct
play ct (ev ∷ evs) = play (apply ct ev) evs

-- Whether a packet of a protocol opens its flow.
abbrev pub opens_flow : FlowKey → Packet → Bool
opens_flow k pkt = if k.proto == 6 then is_tcp_initiation pkt else true

-- What a packet means for the flow `k` alone.
abbrev pub heard : FlowKey → Option FlowKey → Packet → ℕ → Option ℕ → Option ℕ
heard k none pkt now seen = seen
heard k (some j) pkt now seen =
    if flow_key_eq j k
    then if opens_flow j pkt then some now else Option.map (λ t. now) seen
    else seen

-- The specification: when the flow `k` was last heard, if it is open.
pub last_seen : FlowKey → Option ℕ → List Event → Option ℕ
last_seen k seen [] = seen
last_seen k seen (outbound pkt now ∷ evs) = last_seen k (heard k (flow_key pkt) pkt now seen) evs
last_seen k seen (sweeps now ∷ evs) = last_seen k (only (is_fresh now) seen) evs
last_seen k seen (clears ∷ evs) = last_seen k none evs

get-record_flow :
    (ct : Conntrack) (pkt : Packet) (now : ℕ) (o : Option FlowKey) (k : FlowKey)
    → get k (record_flow ct pkt now o).flows ≡ heard k o pkt now (get k ct.flows)
unfolding record_flow
get-record_flow ct pkt now none k = refl
get-record_flow ct pkt now (some j) k =
    ground (arith, get-put j k now ct.flows, get-update j k (λ (t : ℕ). now) ct.flows)

record_flow-DistinctKeys :
    (ct : Conntrack) (pkt : Packet) (now : ℕ) (o : Option FlowKey)
    → DistinctKeys ct.flows
    → DistinctKeys (record_flow ct pkt now o).flows
unfolding record_flow
record_flow-DistinctKeys ct pkt now none d = d
record_flow-DistinctKeys ct pkt now (some j) d =
    ground
      (arith, put-DistinctKeys j now ct.flows d, update-DistinctKeys j (λ (t : ℕ). now) ct.flows d)

pub apply-DistinctKeys :
    (ct : Conntrack) (ev : Event) → DistinctKeys ct.flows → DistinctKeys (apply ct ev).flows
unfolding apply
apply-DistinctKeys ct (outbound pkt now) d = record_flow-DistinctKeys ct pkt now (flow_key pkt) d
apply-DistinctKeys ct (sweeps now) d = keep-DistinctKeys (is_fresh now) ct.flows d
apply-DistinctKeys ct clears d = tt

-- After any calls, the table answers for each flow what the history of that flow alone says.
play-last_seen :
    (ct : Conntrack) (evs : List Event) (k : FlowKey)
    → DistinctKeys ct.flows
    → get k (play ct evs).flows ≡ last_seen k (get k ct.flows) evs
unfolding play apply last_seen get
play-last_seen ct [] k d = refl
play-last_seen ct (outbound pkt now ∷ evs) k d =
    rw (← get-record_flow ct pkt now (flow_key pkt) k) (
      play-last_seen (record_outbound ct pkt now) evs k
        (record_flow-DistinctKeys ct pkt now (flow_key pkt) d))
play-last_seen ct (sweeps now ∷ evs) k d =
    rw (← get-keep (is_fresh now) k ct.flows d)
      (play-last_seen (sweep ct now) evs k (keep-DistinctKeys (is_fresh now) ct.flows d))
play-last_seen ct (clears ∷ evs) k d = play-last_seen (clear ct) evs k tt

-- Whether the packet opens the flow `k`.
abbrev pub starts : FlowKey → Option FlowKey → Packet → Bool
starts k none pkt = false
starts k (some j) pkt = flow_key_eq j k && opens_flow j pkt

-- Whether the flow was opened, and not forgotten by a `clear` since.
pub opened : FlowKey → Bool → List Event → Bool
opened k was [] = was
opened k was (outbound pkt now ∷ evs) = opened k (was || starts k (flow_key pkt) pkt) evs
opened k was (sweeps now ∷ evs) = opened k was evs
opened k was (clears ∷ evs) = opened k false evs

abbrev is_open : Option ℕ → Bool
is_open none = false
is_open (some t) = true

heard_open :
    (k : FlowKey) (o : Option FlowKey) (pkt : Packet) (now : ℕ) (seen : Option ℕ) (was : Bool)
    → (is_open seen ≡ true → was ≡ true)
    → is_open (heard k o pkt now seen) ≡ true
    → (was || starts k o pkt) ≡ true
heard_open k none pkt now seen was h e = ground arith
heard_open k (some j) pkt now seen was h e = ground arith

last_seen-opened :
    (k : FlowKey) (seen : Option ℕ) (was : Bool) (evs : List Event)
    → (is_open seen ≡ true → was ≡ true)
    → is_open (last_seen k seen evs) ≡ true
    → opened k was evs ≡ true
unfolding last_seen opened
last_seen-opened k seen was [] h e = h e
last_seen-opened k seen was (outbound pkt now ∷ evs) h e =
    last_seen-opened k (heard k (flow_key pkt) pkt now seen) (was || starts k (flow_key pkt) pkt)
      evs (heard_open k (flow_key pkt) pkt now seen was h) e
last_seen-opened k seen was (sweeps now ∷ evs) h e =
    last_seen-opened k (only (is_fresh now) seen) was evs (λ x. ground arith) e
last_seen-opened k seen was (clears ∷ evs) h e = last_seen-opened k none false evs (λ x. x) e

-- What `allows_inbound` is meant to say, from the history of one flow.
abbrev pub allowed_by : List Event → ℕ → Option FlowKey → Bool
allowed_by evs now none = false
allowed_by evs now (some k) = seen_fresh now (last_seen (reversed k) none evs)

-- After any calls on an empty table, an inbound packet is let in exactly when its reverse flow,
-- by the calls that concern this flow alone, is open and was heard in the last two minutes.
pub allows_inbound_lem :
    (evs : List Event) (pkt : Packet) (now : ℕ)
    → allows_inbound (play default evs) pkt now ≡ allowed_by evs now (flow_key pkt)
unfolding allows_inbound get
allows_inbound_lem evs pkt now = elim (Option-cases (flow_key pkt)) [
  | inl miss ↦ rw miss
  | inr (k, hit) ↦ rw (hit, play-last_seen default evs (reversed k) tt)
]

-- Nothing unsolicited is let in: an inbound packet that is allowed has a flow key, and the
-- history has an outbound packet that opened the reverse flow, by a SYN if it is TCP, and no
-- `clear` after it.
pub allows_inbound-opened :
    (evs : List Event) (pkt : Packet) (now : ℕ)
    → allows_inbound (play default evs) pkt now ≡ true
    → (k : FlowKey) × (flow_key pkt ≡ some k) × (opened (reversed k) false evs ≡ true)
allows_inbound-opened evs pkt now e = elim (Option-cases (flow_key pkt)) [
  | inl miss ↦ absurd (ground (arith, allows_inbound_lem evs pkt now))
  | inr (k, hit) ↦ (
    k,
    hit,
    last_seen-opened (reversed k) none false evs (λ x. x)
        (ground (arith, allows_inbound_lem evs pkt now)),
  )
]
