-- ===== src/PendingClear/Tests.antt =====
-- A carrier with one field in each half, and a resync that clears a third.
use nso_adapter.Prelude.{◌≡◌, refl, true, false, not, ◌&&◌, ◌||◌, some, Option, [], ◌∷◌}
use nso_adapter.PendingClear.{
  Carrier, has, join, minus, insert_text, sorted_texts, pending_clear_fields,
  authorized_clear_fields, update_pending_clear,
}
use nso_adapter.PendingClear.Runs.{
  Push, run, are_store_only, store_only_authorizes_nothing, pending_after_push,
}

abbrev carrier : Option Carrier
carrier = some (record { authorized = "metric" ∷ []; store_only = "tag" ∷ [] })

abbrev resync : Push
resync = record { cleared = "permanent" ∷ "metric" ∷ []; reset = "tag" ∷ []; store_only = true }

resync_updates :
    run carrier (resync ∷ [])
    ≡ some (record { authorized = "metric" ∷ []; store_only = "permanent" ∷ [] })
unfolding run update_pending_clear has join minus insert_text sorted_texts
resync_updates = refl

store_only_authorizes_nothing_example : has "metric" (authorized_clear_fields carrier) ≡ true
unfolding run update_pending_clear has join minus insert_text sorted_texts are_store_only
    authorized_clear_fields
store_only_authorizes_nothing_example =
    store_only_authorizes_nothing "metric" carrier (resync ∷ []) refl refl

pending_after_push_example :
    has "tag"
      (pending_clear_fields (update_pending_clear ("metric" ∷ []) ("tag" ∷ []) false carrier))
    ≡ (has "tag" ("metric" ∷ [])
        || (has "tag" (pending_clear_fields carrier) && not (has "tag" ("tag" ∷ []))))
pending_after_push_example = pending_after_push "tag" ("metric" ∷ []) ("tag" ∷ []) false carrier
