-- ===== src/Sync/Effects/Settled.antt =====
-- server/src/sync/effects.ts: every execution that ends without an error gives up the lease.
use planipus.Common.{String, Bool, ◌&&◌, str_eq}
use planipus.Sync.Store.{Store, Effect}
use planipus.Sync.Provider.{CalendarProvider}
use planipus.Sync.Effects.Steps.{Env, LeasedEffect, is_held_by}

module _ (env : Env) {R : Type 0} (provider : CalendarProvider R) (owner : String)
    (effect : LeasedEffect) where
  abbrev pub holds_lease : Effect → Bool
  holds_lease e = str_eq e.organization_id effect.organization_id && is_held_by owner effect.id e
