-- ===== src/Engine/Joining/Admitted.antt =====
-- What an approval does to the roster (crates/ipn-core/src/engine.rs: `handle_join_incoming`,
-- `admit_member`), under the fold of roster.rs.
use nullgate.Common.{ℕ, ◌≡◌, ◌≢◌, refl, ap, sym, ◌∙◌, true, false, none, some, arith}
use nullgate.Common.Maps.{lookup}
use nullgate.Common.Results.{Result, ok, err}
use nullgate.Roster.{NodeId, InviteCheck, Config}
use nullgate.Roster.Signing.{sign}
use nullgate.Roster.Fold.{FoldState, is_controller, step}
use nullgate.Roster.Build.{finish}
use nullgate.Roster.Addresses.{lowest_free_host}
use nullgate.Roster.Queries.{check_invite}
use nullgate.Roster.Queries.JoinCheck.{MayAdmit, newcomer, check_invite_agrees}
use nullgate.Engine.Config.{StoredConfig}
use nullgate.Engine.Session.{Env, Net, Session, OpError, publish}
use nullgate.Engine.Joining.{
  JoinRequest, JoinResponse, admission_entry, admit_member, on_check, on_request, on_decision,
  response,
}

module _ {Addr : Type 0} (env : Env Addr) where
  abbrev pub device_id : NodeId
  device_id = env.crypto.verifying_key env.device_key

  on_check-waits :
      (channel : ℕ) (peer : NodeId) (c : InviteCheck) (s : Session)
      → (on_check env channel peer c s).1 ≡ none
      → c ≡ InviteCheck.ok
  on_check-waits channel peer InviteCheck.ok s h = refl
  on_check-waits channel peer InviteCheck.spent s h = cc
  on_check-waits channel peer InviteCheck.stale s h = cc

  on_check-refuses :
      (channel : ℕ) (peer : NodeId) (c : InviteCheck) (s : Session) {r : JoinResponse}
      → (on_check env channel peer c s).1 ≡ some r
      → c ≢ InviteCheck.ok
  on_check-refuses channel peer InviteCheck.ok s h = cc
  on_check-refuses channel peer InviteCheck.spent s h = λ e. cc
  on_check-refuses channel peer InviteCheck.stale s h = λ e. cc

  -- Where the roster is the one that the fold makes, the roll is not frozen and this device is a
  -- Controller in it who may admit: a request that waits for a decision is one whose admission,
  -- signed by this device and folded next, puts the joiner in the roster, in the role of its
  -- ticket and at the lowest free address; a request that is refused at once is one whose
  -- admission would have changed nothing.
  pub on_request_agrees :
      (rc : Config) (st : FoldState) (s : Session) (cfg : StoredConfig) (network peer : NodeId)
      (req : JoinRequest) (ts channel : ℕ)
      → device_id ≢ rc.originator_id
      → MayAdmit st device_id ts
      → s.live.roster ≡ finish rc st
      → let e = admission_entry env network peer req ts cfg s.live.roster in
        ((on_request env channel peer req s).1 ≡ none
          → lookup peer (step rc st e).members
            ≡ some (
                newcomer req.invite_kind device_id req.hostname
                  (lowest_free_host s.live.roster cfg.subnet)))
        × ((r : JoinResponse) → (on_request env channel peer req s).1 ≡ some r → step rc st e ≡ st)
  unfolding on_request sign
  on_request_agrees rc st s cfg network peer req ts channel ne may same =
      let ip = lowest_free_host s.live.roster cfg.subnet in
      let e = admission_entry env network peer req ts cfg s.live.roster in
      let agrees =
        check_invite_agrees rc st req.invite_kind e peer req.hostname ip req.invite_nonce ts ne may
          refl in
      let verdict = check_invite s.live.roster req.invite_kind req.invite_nonce in
      let same_verdict = ap (λ r. check_invite r req.invite_kind req.invite_nonce) (sym same) in
      (
        λ h. agrees.0 (same_verdict ∙ on_check-waits channel peer verdict s h),
        λ r h. agrees.1 (λ k. on_check-refuses channel peer verdict s h (sym same_verdict ∙ k)),
      )

  admit_member-runs :
      (s : Session) (cfg : StoredConfig) (net : Net) (network peer : NodeId) (req : JoinRequest)
      (ts key : ℕ)
      → s.config ≡ some cfg
      → cfg.originator_secret ≡ some key
      → s.live.roster.frozen ≡ false
      → admit_member env net network peer req ts s
        ≡ publish env net (admission_entry env network peer req ts cfg s.live.roster) s
  unfolding admit_member
  admit_member-runs s cfg net network peer req ts key c k f = simp c (simp f (simp k refl))

  response-approved :
      (r : Session × Result OpError (Unit {0}))
      → r.1 ≡ ok tt
      → (response env r).1 ≡ JoinResponse.approved
  response-approved (s, ok u) h = refl
  response-approved (s, err e) h = cc

  -- A device that was given the originator's key without being a Controller in the roster, in a
  -- roll that is not frozen, tells the joiner that it is approved whenever the entry can be
  -- published, but it signs the admission with its own key, and the fold passes the entry over.
  pub key_holder_admits_nobody :
      (rc : Config) (st : FoldState) (s : Session) (cfg : StoredConfig) (net : Net)
      (network peer : NodeId) (req : JoinRequest) (ts key : ℕ)
      → s.config ≡ some cfg
      → cfg.originator_secret ≡ some key
      → s.live.roster.frozen ≡ false
      → device_id ≢ rc.originator_id
      → is_controller st device_id ≡ false
      → (publish env net (admission_entry env network peer req ts cfg s.live.roster) s).1 ≡ ok tt
      → ((on_decision env net network peer req ts true s).1 ≡ JoinResponse.approved)
        × (step rc st (admission_entry env network peer req ts cfg s.live.roster) ≡ st)
  unfolding on_decision sign step
  key_holder_admits_nobody rc st s cfg net network peer req ts key c k f ne plain published = (
    ap (λ r. (response env r).1) (admit_member-runs s cfg net network peer req ts key c k f)
        ∙ response-approved
            (publish env net (admission_entry env network peer req ts cfg s.live.roster) s)
            published,
    ground (arith, ne, plain),
  )
