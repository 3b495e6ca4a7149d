-- ===== src/Pool/Rebuild.antt =====
-- `Rebuild`, `buildGroups` and `SetGroups` of internal/pool/pool.go. The code publishes the snapshot
-- after it has unlocked the map; here nothing comes between.
use proxy_gateway.Prelude.{ℕ, String, List, [], ◌∷◌, ◌++◌, map, keep}
use proxy_gateway.Prelude.Dict.{values}
use proxy_gateway.Prelude.Float.{Float64}
use proxy_gateway.Model.{Proxy}
use proxy_gateway.Config.{BackupPool, GroupCfg}
use proxy_gateway.Pool.State.{Pool, Snapshot, GroupSnap, LayerSnap, bump_seq}
use proxy_gateway.Pool.Region.{region_aggregates}
use proxy_gateway.Pool.Layer.{build_layer}
use proxy_gateway.Pool.Prio.{sort_alive, prio_groups}

-- The proxies of the map in the order of its loop, and those that are alive.
abbrev pub all_proxies : Pool → List Proxy
all_proxies p = values p.proxies

abbrev pub alive_proxies : Pool → List Proxy
alive_proxies p = keep (λ pr. pr.alive) (all_proxies p)

-- The providers of all backups, one after the other.
unfoldable pub backup_providers : List BackupPool → List String
backup_providers [] = []
backup_providers (bk ∷ rest) = bk.providers ++ backup_providers rest

module _ ⦃fl : Float64⦄ where
  abbrev pub backup_min_ratio : List BackupPool → ℕ
  backup_min_ratio [] = fl.zero_f
  backup_min_ratio (bk ∷ rest) = bk.min_alive_ratio

  -- The tiers of a group with the given backup providers.
  abbrev pub build_group_layers : List Proxy → List Proxy → GroupCfg → List String → List LayerSnap
  build_group_layers all alive gc backups =
      let (total_by, alive_by) = region_aggregates gc.regions all alive in
      let first =
        build_layer "primary" gc.primary gc.primary_weights gc.min_alive_ratio alive_by total_by in
      let second =
        build_layer "backup" backups gc.backup_weights (backup_min_ratio gc.backups) alive_by
          total_by in
      elim backups [ [] ↦ first ∷ [] | pn ∷ more ↦ first ∷ second ∷ [] ]

  -- One turn of the loop of `buildGroups`.
  unfoldable pub build_group : List Proxy → List Proxy → GroupCfg → GroupSnap
  build_group all alive gc = record {
    name = gc.name;
    layers = build_group_layers all alive gc (backup_providers gc.backups);
  }

  unfoldable pub build_groups : Pool → List GroupSnap
  build_groups p = map (build_group (all_proxies p) (alive_proxies p)) p.groups_cfg

  -- `alive` is sorted in place where there are no groups.
  abbrev pub prio_snapshot : Pool → Snapshot
  prio_snapshot p = record {
    proxies = map (λ pr. pr.id) (sort_alive (alive_proxies p));
    prio = prio_groups (all_proxies p) (sort_alive (alive_proxies p));
    groups = [];
  }

  abbrev pub group_snapshot : Pool → Snapshot
  group_snapshot p = record {
    proxies = map (λ pr. pr.id) (alive_proxies p);
    prio = [];
    groups = build_groups p;
  }

  unfoldable pub snapshot_of : Pool → Snapshot
  snapshot_of p = elim p.groups_cfg [ [] ↦ prio_snapshot p | gc ∷ rest ↦ group_snapshot p ]

  unfoldable pub rebuild : Pool → Pool
  rebuild p = record p { snap = snapshot_of p; seq = bump_seq p.seq }

  unfoldable pub set_groups : Pool → List GroupCfg → Pool
  set_groups p cfg = rebuild (record p { groups_cfg = cfg })
