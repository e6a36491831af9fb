-- ===== src/Grants/Revoke.antt =====
-- Grant groups, the devices that one requestDevice() granted together (recordGrantGroup,
-- getGrantGroupsForOrigin and deleteGrantGroups of addon/js/background/storage.js), and what revoking a
-- device does to the grants (handleRevokeDevice and revokeDevices of addon/js/background/messages.js).
use ff_web_hid.Prelude.{
  ℕ, String, List, [], ◌∷◌, ◌++◌, Bool, true, false, not, ◌&&◌, ◌||◌, ltb, ◌==◌, nat_eq, string_eq,
  if◌then◌else◌, ◌≡◌, refl, arith, length,
}
use ff_web_hid.Prelude.Maps.{Map, contains}
use ff_web_hid.Prelude.Texts.{is_blank}
use ff_web_hid.Grants.Stores.{ObjectStore, pair_eq}
use ff_web_hid.Grants.Allowed.{
  get_allowed_devices, remove_allowed_device, get_allowed_devices-remove_allowed_device,
}

pub record GrantGroup : Type 0 where
  pub origin : String
  pub device_ids : List ℕ

-- The index byOrigin: the groups of an origin, with their ids.
unfoldable pub groups_of : String → Map ℕ GrantGroup → Map ℕ GrantGroup
groups_of origin [] = []
groups_of origin ((id, g) ∷ rows) =
    if g.origin == origin then (id, g) ∷ groups_of origin rows else groups_of origin rows

-- `new Set(…)` with more ids added: an id that is in the set is not added again.
add_ids : List ℕ → List ℕ → List ℕ
add_ids seen [] = seen
add_ids seen (id ∷ ids) = add_ids (if contains id seen then seen else seen ++ (id ∷ [])) ids

-- `g.deviceIds.some((id) => targetIds.includes(id))`
unfoldable pub has_target : List ℕ → List ℕ → Bool
has_target targets [] = false
has_target targets (id ∷ ids) = contains id targets || has_target targets ids

unfoldable pub member_groups : List ℕ → Map ℕ GrantGroup → Map ℕ GrantGroup
member_groups targets [] = []
member_groups targets ((id, g) ∷ groups) =
    if has_target targets g.device_ids
    then (id, g) ∷ member_groups targets groups
    else member_groups targets groups

add_groups : List ℕ → Map ℕ GrantGroup → List ℕ
unfolding add_ids
add_groups seen [] = seen
add_groups seen ((_, g) ∷ groups) = add_groups (add_ids seen g.device_ids) groups

-- The devices to revoke: the targets and the members of the groups that have one of them.
unfoldable pub to_revoke : List ℕ → Map ℕ GrantGroup → List ℕ
unfolding add_groups
to_revoke targets groups = add_groups (add_ids [] targets) (member_groups targets groups)

-- Whether a device is in a group that has a target.
unfoldable pub is_granted_with : List ℕ → ℕ → Map ℕ GrantGroup → Bool
is_granted_with targets j [] = false
is_granted_with targets j ((_, g) ∷ groups) =
    (has_target targets g.device_ids && contains j g.device_ids) || is_granted_with targets j groups

contains-append :
    (j : ℕ) (xs ys : List ℕ) → contains j (xs ++ ys) ≡ (contains j xs || contains j ys)
unfolding contains
contains-append j [] ys = refl
contains-append j (x ∷ xs) ys = ground (arith, contains-append j xs ys)

contains-add_ids :
    (j : ℕ) (seen ids : List ℕ)
    → contains j (add_ids seen ids) ≡ (contains j seen || contains j ids)
unfolding add_ids contains
contains-add_ids j seen [] = ground arith
contains-add_ids j seen (id ∷ ids) = ground (
  arith,
  contains-add_ids j (if contains id seen then seen else seen ++ (id ∷ [])) ids,
  contains-append j seen (id ∷ []),
)

contains-add_groups :
    (targets : List ℕ) (j : ℕ) (seen : List ℕ) (groups : Map ℕ GrantGroup)
    → contains j (add_groups seen (member_groups targets groups))
      ≡ (contains j seen || is_granted_with targets j groups)
unfolding add_groups member_groups is_granted_with
contains-add_groups targets j seen [] = ground arith
contains-add_groups targets j seen ((id, g) ∷ groups) = ground (
  arith,
  contains-add_groups targets j seen groups,
  contains-add_groups targets j (add_ids seen g.device_ids) groups,
  contains-add_ids j seen g.device_ids,
)

contains-to_revoke :
    (targets : List ℕ) (j : ℕ) (groups : Map ℕ GrantGroup)
    → contains j (to_revoke targets groups)
      ≡ (contains j targets || is_granted_with targets j groups)
unfolding to_revoke contains
contains-to_revoke targets j groups = ground (
  arith,
  contains-add_groups targets j (add_ids [] targets) groups,
  contains-add_ids j [] targets,
)

-- The devices that a request names.
unfoldable pub target_ids : List ℕ → ℕ → List ℕ
target_ids [] device = device ∷ []
target_ids (id ∷ ids) device = id ∷ ids

module _ (grouped : ObjectStore ℕ GrantGroup) where
  -- `key` is the key that the store generates.
  unfoldable pub record_grant_group : Bool → ℕ → String → List ℕ → grouped.Rows → grouped.Rows
  record_grant_group done key origin ids rows =
      if is_blank origin || ltb (length ids) 2
      then rows
      else if done
      then grouped.put_row key (record { origin = origin; device_ids = ids }) rows
      else rows

  unfoldable pub get_grant_groups_for_origin : Bool → String → grouped.Rows → Map ℕ GrantGroup
  get_grant_groups_for_origin done origin rows =
      if done then groups_of origin (grouped.all rows) else []

  unfoldable pub delete_each : Map ℕ GrantGroup → grouped.Rows → grouped.Rows
  delete_each [] rows = rows
  delete_each ((id, _) ∷ groups) rows = delete_each groups (grouped.delete_row id rows)

  unfoldable pub delete_grant_groups : Bool → Map ℕ GrantGroup → grouped.Rows → grouped.Rows
  unfolding delete_each
  delete_grant_groups done groups rows = if done then delete_each groups rows else rows

  module _ {V : Type 0} (origins : ObjectStore (String × ℕ) V) where
    revoke_each : String → List ℕ → origins.Rows → origins.Rows
    revoke_each origin [] rows = rows
    revoke_each origin (id ∷ ids) rows =
        revoke_each origin ids (remove_allowed_device origins true origin id rows).0

    -- What handleRevokeDevice does to the grants and to the groups when no transaction fails; without an
    -- origin it returns before it reads anything.
    unfoldable pub revoke_grants :
        String → List ℕ → ℕ → grouped.Rows → origins.Rows → origins.Rows × grouped.Rows
    unfolding revoke_each
    revoke_grants origin ids device groups rows =
        let targets = target_ids ids device in
        let known = get_grant_groups_for_origin true origin groups in
        if is_blank origin then (rows, groups) else (
          revoke_each origin (to_revoke targets known) rows,
          delete_grant_groups true (member_groups targets known) groups,
        )

    get_allowed_devices-revoke_each :
        (origin o : String) (j : ℕ) (ids : List ℕ) (rows : origins.Rows)
        → contains j (get_allowed_devices origins o (revoke_each origin ids rows)) ≡ (
            if origin == o && contains j ids
            then false
            else contains j (get_allowed_devices origins o rows))
    unfolding revoke_each contains
    get_allowed_devices-revoke_each origin o j [] rows = ground arith
    get_allowed_devices-revoke_each origin o j (id ∷ ids) rows = ground (
      arith,
      get_allowed_devices-revoke_each origin o j ids
          (remove_allowed_device origins true origin id rows).0,
      get_allowed_devices-remove_allowed_device origins true origin o id j rows,
    )

    -- When no transaction of the stores fails, revoking takes from an origin exactly the devices that the
    -- request names and those that were granted together with one of them, in a group recorded for that
    -- origin; every other grant, and every grant of another origin, stays; and a request with the empty
    -- origin takes nothing.
    pub revoke_grants_effect :
        (origin o : String) (ids : List ℕ) (device j : ℕ) (groups : grouped.Rows)
        (rows : origins.Rows)
        → contains j (get_allowed_devices origins o (revoke_grants origin ids device groups rows).0)
          ≡ (if not (is_blank origin)
                && (origin == o)
                && (contains j (target_ids ids device)
                    || is_granted_with
                        (target_ids ids device)
                        j
                        (get_grant_groups_for_origin true origin groups))
              then false
              else contains j (get_allowed_devices origins o rows))
    unfolding revoke_grants
    revoke_grants_effect origin o ids device j groups rows =
        let known = get_grant_groups_for_origin true origin groups in
        ground (
          arith,
          string_eq.beq_iff origin "",
          get_allowed_devices-revoke_each origin o j (to_revoke (target_ids ids device) known) rows,
          contains-to_revoke (target_ids ids device) j known,
        )
