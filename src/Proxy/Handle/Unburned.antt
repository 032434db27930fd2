-- ===== src/Proxy/Handle/Unburned.antt =====
-- What server/src/proxy.rs charges a use for.
use keychute.Api.Between.{Handler}
use keychute.Prelude.{◌≡◌, ok}
use keychute.Proxy.Handle.Resolved.{Resolved}
use keychute.Proxy.Setting.{Setting, Ready}
use keychute.Proxy.Target.{Request, grant_id_from_path}
use keychute.Store.{Db}
use keychute.Types.{Uuid}

-- A handler that commits nothing.
abbrev IsQuiet : {A : Type 0} → Handler A → Type 0
IsQuiet act = (db : Db) → (act db).1 ≡ db

-- Every check that comes before the accounting has passed.
pub record Charged (w : Setting) (req : Request) (db : Db) : Type 0 where
  pub id : Uuid
  pub named : grant_id_from_path w.parse_uuid req.path ≡ ok id
  pub ready : Ready
  pub resolved : Resolved w id req db ready
