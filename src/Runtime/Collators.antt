-- ===== src/Runtime/Collators.antt =====
-- Sessions and collators in runtime/src/configs/mod.rs: how long a session is, which candidates are
-- lazy, how many collators there may be, and which origin may change them. The pallets themselves are not in this
-- repository: they are the parameters `SessionPallets` and `OriginChecks`.
pub mod Sessions
pub mod Updates
pub mod Memory
mod Tests
use polkadot_confidential_of.Base.{ℕ, ◌*◌, Bool, List, [], ◌∷◌}
use polkadot_confidential_of.Runtime.{hours}
use polkadot_confidential_of.Runtime.Xcm.{
  BodyId, defense, LocationTypes, Location, relay_location, RuntimeOrigin,
}

-- `Period` and `Offset`
abbrev pub period : ℕ
period = 6 * hours

abbrev pub offset : ℕ
offset = 0

-- `SessionLength`
abbrev pub session_length : ℕ
session_length = 6 * hours

-- `KickThreshold`
abbrev pub kick_threshold : ℕ
kick_threshold = period

-- `MaxInvulnerables` of pallet-collator-selection and `MaxAuthorities` of pallet-aura
abbrev pub max_invulnerables : ℕ
max_invulnerables = 20

abbrev pub max_authorities : ℕ
max_authorities = 100000

-- pallet-session's `PeriodicSessions`, and the test of pallet-collator-selection for a lazy
-- candidate, at a block and for the last block that the candidate made. Lazy candidates are kicked
-- while enough collators are left.
pub record SessionPallets : Type 0 where
  pub periodic_end : (period offset now : ℕ) → Bool
  pub is_lazy : (threshold now last : ℕ) → Bool

module _ (p : SessionPallets) where
  -- `ShouldEndSession`
  unfoldable pub should_end_session : ℕ → Bool
  should_end_session now = p.periodic_end period offset now

  unfoldable pub is_lazy_candidate : ℕ → ℕ → Bool
  is_lazy_candidate now last = p.is_lazy kick_threshold now last

-- The checks of frame-system and pallet-xcm. `voice` is the part of a body that speaks for it.
pub record OriginChecks (t : LocationTypes) : Type 0 where
  pub voice : t.BodyPart
  pub ensure_root : RuntimeOrigin t → Bool
  pub ensure_xcm : (Location t → Bool) → RuntimeOrigin t → Bool
  pub is_voice_of_body : Location t → BodyId t.OtherBody → Location t → Bool
  pub either_of_diverse :
      (RuntimeOrigin t → Bool) → (RuntimeOrigin t → Bool) → RuntimeOrigin t → Bool

module _ (t : LocationTypes) (checks : OriginChecks t) where
  -- `StakingAdminBodyId`
  abbrev pub staking_admin_body_id : BodyId t.OtherBody
  staking_admin_body_id = defense

  -- `CollatorSelectionUpdateOrigin`
  unfoldable pub may_update_collators : RuntimeOrigin t → Bool
  may_update_collators =
      checks.either_of_diverse checks.ensure_root
        (checks.ensure_xcm (checks.is_voice_of_body (relay_location t) staking_admin_body_id))
