-- ===== src/Engine/Recovery/Reseed.antt =====
-- Which members are dialed again to keep the roster's document in sync
-- (crates/ipn-core/src/engine.rs: `doc_reseed_targets`).
use nullgate.Common.{
  ◌≡◌, ◌≢◌, ◌↔◌, refl, Bool, true, ◌&&◌, ◌||◌, Option, none, some, List, [], ◌∷◌, arith, select,
}
use nullgate.Common.Maps.{IdSet, contains}
use nullgate.Common.Sets.{contains-select}
use nullgate.Roster.{NodeId}
use nullgate.Engine.Recovery.{nonempty, doc_reseed_targets}

-- The members to dial, none being as good as an empty list.
abbrev pub targets : Option (List NodeId) → List NodeId
targets none = []
targets (some ids) = ids

targets-nonempty : (ids : List NodeId) → targets (nonempty ids) ≡ ids
targets-nonempty [] = refl
targets-nonempty (id ∷ more) = refl

nonempty-some : (ids : List NodeId) → nonempty ids ≢ some []
nonempty-some [] = λ e. cc
nonempty-some (id ∷ more) = λ e. ground arith

-- A member is dialed exactly when the member set has changed, or the periodic round is due and
-- the member is connected or has been heard of lately. Nobody else is ever dialed, and a round
-- without anyone to dial is no round.
pub doc_reseed_targets_lem :
    (members : List NodeId) (connected : IdSet) (is_fresh : NodeId → Bool) (changed due : Bool)
    (id : NodeId)
    → let round = doc_reseed_targets members connected is_fresh changed due in
      ((contains id (targets round) ≡ true) ↔ (
        (contains id members ≡ true)
        × ((changed || (due && (contains id connected || is_fresh id))) ≡ true)))
      × (round ≢ some [])
unfolding doc_reseed_targets
doc_reseed_targets_lem [] connected is_fresh changed due id = ground arith
doc_reseed_targets_lem (m ∷ ms) connected is_fresh changed due id =
    let reachable = λ (j : NodeId). contains j connected || is_fresh j in
    let found = select reachable (m ∷ ms) in
    ground
      (arith, contains-select reachable id (m ∷ ms), targets-nonempty found, nonempty-some found)
