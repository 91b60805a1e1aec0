-- ===== src/Cloud/Config/Link.antt =====
-- src/cloud.rs and src/state.rs: what the database remembers of the link to the cloud.
use nylon_run.Prelude.{
  ◌≡◌, refl, Option, none, some, List, Text, ok, subst, starts_with, text_eq, ◌∙◌,
}
use nylon_run.Protocol.{ProcessConfig}
use nylon_run.State.{Db, Codec, put, delete, save}
use nylon_run.State.Laws.{IsLawful, IsFaithful}
use nylon_run.State.Rows.{HasDistinctNames}
use nylon_run.Prelude.Ends.{Ends, Ends-weaken, Ends-continue}
use nylon_run.State.Loading.{view-save}
use nylon_run.State.Keys.{IsReadable, decoded, get-view, put-Ends, delete-Ends}
use nylon_run.Cloud.Config.{
  save_cloud_config, remove_cloud_config, load_cloud_config, with_url, cloud_api_key,
  cloud_server_url, default_cloud_url,
}

module _ {D B : Type 0} (db : Db D B) (codec : Codec B) (law : IsLawful db)
    (faithful : IsFaithful codec) where
  load-view :
      (d : D)
      → IsReadable db codec law faithful d
      → load_cloud_config db codec d
        ≡ with_url db codec
            (decoded db codec law faithful (law.view d cloud_api_key))
            (decoded db codec law faithful (law.view d cloud_server_url))
  unfolding load_cloud_config
  load-view d h =
      rw
        (
          get-view db codec law faithful cloud_api_key d h,
          get-view db codec law faithful cloud_server_url d h,
        )
        refl

  abbrev HasLink : Text → D → Type 0
  HasLink api_key d =
      (law.view d cloud_api_key ≡ some (codec.as_bytes api_key))
      × (law.view d cloud_server_url ≡ some (codec.as_bytes default_cloud_url))

  save-HasLink :
      (api_key : Text) (d : D) → Ends (λ u. HasLink api_key) (save_cloud_config db codec api_key d)
  unfolding save_cloud_config text_eq
  save-HasLink api_key d =
      Ends-continue _ _ (λ u. put db codec cloud_server_url default_cloud_url)
        (put db codec cloud_api_key api_key d)
        (put-Ends db codec law faithful cloud_api_key api_key d)
        (λ u d1 h.
          Ends-weaken _ (λ u. HasLink api_key) (put db codec cloud_server_url default_cloud_url d1)
            (put-Ends db codec law faithful cloud_server_url default_cloud_url d1)
            (λ u d2 g. (g cloud_api_key ∙ h cloud_api_key, g cloud_server_url)))

  abbrev HasNoLink : D → Type 0
  HasNoLink d = (law.view d cloud_api_key ≡ none) × (law.view d cloud_server_url ≡ none)

  remove-HasNoLink : (d : D) → Ends (λ u. HasNoLink) (remove_cloud_config db codec d)
  unfolding remove_cloud_config text_eq
  remove-HasNoLink d =
      Ends-continue _ _ (λ u. delete db codec cloud_server_url) (delete db codec cloud_api_key d)
        (delete-Ends db codec law faithful cloud_api_key d)
        (λ u d1 h.
          Ends-weaken _ (λ u. HasNoLink) (delete db codec cloud_server_url d1)
            (delete-Ends db codec law faithful cloud_server_url d1)
            (λ u d2 g. (g cloud_api_key ∙ h cloud_api_key, g cloud_server_url)))

  -- A database after a link to the cloud was saved (`some` key) or removed (`none`) with success, and apps
  -- were saved with success any number of times since.
  pub data IsLinked : Option Text → D → Type 0 where
    linked :
        (api_key : Text) (d d' : D)
        → save_cloud_config db codec api_key d ≡ (ok tt, d')
        → IsLinked (some api_key) d'
    unlinked : (d d' : D) → remove_cloud_config db codec d ≡ (ok tt, d') → IsLinked none d'
    saved :
        (o : Option Text) (configs : List ProcessConfig) (d d' : D)
        → HasDistinctNames configs
        → save db codec configs d ≡ (ok tt, d')
        → IsLinked o d
        → IsLinked o d'

  abbrev HasLinkOf : Option Text → D → Type 0
  HasLinkOf none d = HasNoLink d
  HasLinkOf (some api_key) d = HasLink api_key d

  abbrev pub link_of : Option Text → Option (Text × Text)
  link_of none = none
  link_of (some api_key) = some (api_key, default_cloud_url)

  kept :
      (o : Option Text) (d d' : D)
      → law.view d' cloud_api_key ≡ law.view d cloud_api_key
      → law.view d' cloud_server_url ≡ law.view d cloud_server_url
      → HasLinkOf o d
      → HasLinkOf o d'
  kept none d d' e q (a, b) = (e ∙ a, q ∙ b)
  kept (some api_key) d d' e q (a, b) = (e ∙ a, q ∙ b)

  IsLinked-HasLinkOf : (o : Option Text) (d : D) → IsLinked o d → HasLinkOf o d
  unfolding starts_with
  IsLinked-HasLinkOf _ _ (linked api_key d d' e) =
      subst (Ends (λ u. HasLink api_key)) e (save-HasLink api_key d)
  IsLinked-HasLinkOf _ _ (unlinked d d' e) = subst (Ends (λ u. HasNoLink)) e (remove-HasNoLink d)
  IsLinked-HasLinkOf _ _ (saved o configs d d' distinct e h) =
      kept o d d' (view-save db codec law faithful configs d d' cloud_api_key distinct e refl)
        (view-save db codec law faithful configs d d' cloud_server_url distinct e refl)
        (IsLinked-HasLinkOf o d h)

  -- Let the database answer the two reads. After a link was saved with success, its key and the default
  -- address are loaded, and after it was removed with success, no link is loaded; in both cases also when
  -- apps with distinct names were saved with success any number of times since.
  pub load_cloud_config_lem :
      (o : Option Text) (d : D)
      → IsLinked o d
      → IsReadable db codec law faithful d
      → load_cloud_config db codec d ≡ link_of o
  unfolding with_url
  load_cloud_config_lem o d h r = load-view d r ∙ loaded o (IsLinked-HasLinkOf o d h)
    where
      loaded :
          (o : Option Text)
          → HasLinkOf o d
          → with_url db codec
              (decoded db codec law faithful (law.view d cloud_api_key))
              (decoded db codec law faithful (law.view d cloud_server_url))
            ≡ link_of o
      loaded none (a, b) = rw a refl
      loaded (some api_key) (a, b) =
          rw
            (
              a,
              b,
              faithful.from_utf8-as_bytes api_key,
              faithful.from_utf8-as_bytes default_cloud_url,
            )
            refl
