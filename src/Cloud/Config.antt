-- ===== src/Cloud/Config.antt =====
-- src/cloud.rs, the helpers that persist the link.
pub mod Link
use nylon_run.Prelude.{
  ◌≡◌, refl, Option, none, some, Text, Result, ok, err, Action, codes, arith, unwrap_or, subst, ap,
  starts_with, text_eq, ◌∙◌, sym, false,
}
use nylon_run.Prelude.Actions.{◌>>◌}
use nylon_run.State.{Db, Codec, put, get, delete}

abbrev pub cloud_api_key : Text
cloud_api_key = codes "cloud:api_key"

abbrev pub cloud_server_url : Text
cloud_server_url = codes "cloud:server_url"

abbrev pub default_cloud_url : Text
default_cloud_url = codes "wss://cloud.nyrun.dev/agent/ws"

module _ {D B : Type 0} (db : Db D B) (codec : Codec B) where
  unfoldable pub save_cloud_config : Text → Action D (Unit {0})
  save_cloud_config api_key =
      put db codec cloud_api_key api_key >> put db codec cloud_server_url default_cloud_url

  unfoldable pub remove_cloud_config : Action D (Unit {0})
  remove_cloud_config = delete db codec cloud_api_key >> delete db codec cloud_server_url

  with_url : Option Text → Option Text → Option (Text × Text)
  with_url none url = none
  with_url (some api_key) url = some (api_key, unwrap_or url default_cloud_url)

  -- A missing address is the default one.
  unfoldable pub load_cloud_config : D → Option (Text × Text)
  unfolding with_url
  load_cloud_config d = with_url (get db codec cloud_api_key d) (get db codec cloud_server_url d)
