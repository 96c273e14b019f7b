-- ===== src/Contents/Parameters.antt =====
-- The parameter values of scan configs and of events.
use safe_harbor_server.Base.{ℕ, ◌+◌, Option, none, some, List, [], ◌∷◌, ◌++◌, ◌==◌, if◌then◌else◌}
use safe_harbor_server.Store.{
  Text, Ptr, as_scan_config, as_scan_event, as_dockerfile_exec_event, scan_parameter_value,
  map_scan_config, map_scan_parameter_value, map_scan_event, map_dockerfile_exec_event, user_error,
  Action, pure, raise, ◌>>=◌, ◌>>◌, for_each, mutate, attempt, new_object, update_object,
  delete_object,
}
use safe_harbor_server.Utilities.{Utilities}
use safe_harbor_server.Contents.Find.{deref_as, get_parameter_value, get_scan_config}

-- InMemClient.NewInMemScanParameterValue, with NewInMemParameterValue.
unfoldable pub new_scan_parameter_value : Text → Text → Text → Action Ptr
unfolding new_object update_object
new_scan_parameter_value name value config_id = do
  p ← new_object (λ id.
      scan_parameter_value
        (record { id = id; name = name; string_value = value; config_id = config_id }))
  update_object p
  pure p

-- InMemClient.dbCreateScanParameterValue, with addParameterValueId, which does not write back.
unfoldable pub db_create_scan_parameter_value : Text → Text → Text → Action Ptr
unfolding get_scan_config new_scan_parameter_value
db_create_scan_parameter_value name value config_id = do
  c ← get_scan_config config_id
  p ← new_scan_parameter_value name value config_id
  mutate c.id
      (map_scan_config (λ x. record x { parameter_value_ids = x.parameter_value_ids ++ p ∷ [] }))
  pure p

-- The loop of setParameterValueDeferredUpdate: the value of that name is replaced where there is one.
replace_value : Text → Text → List Text → Action (Option Ptr)
unfolding get_parameter_value
replace_value name value [] = pure none
replace_value name value (id ∷ ids) = do
  let rest = replace_value name value ids
  pv ← get_parameter_value id
  if pv.name == name
      then (do
        mutate pv.id (map_scan_parameter_value (λ x. record x { string_value = value }))
        pure (some pv.id))
      else rest

-- InMemScanConfig.setParameterValueDeferredUpdate
unfoldable pub set_parameter_value_deferred_update : Ptr → Text → Text → Action Ptr
unfolding deref_as replace_value db_create_scan_parameter_value
set_parameter_value_deferred_update config name value = do
  x ← deref_as as_scan_config config
  found ← replace_value name value x.parameter_value_ids
  elim found [ none ↦ db_create_scan_parameter_value name value config | some p ↦ pure p ]

-- InMemScanConfig.setParameterValue
unfoldable pub set_parameter_value : Ptr → Text → Text → Action Ptr
unfolding set_parameter_value_deferred_update update_object
set_parameter_value config name value = do
  p ← set_parameter_value_deferred_update config name value
  update_object p
  update_object config
  pure p

-- The loop of the three deleteAllParameterValues; the error of a deletion is dropped.
delete_values : List Text → Action (Unit {0})
unfolding get_parameter_value delete_object
delete_values ids =
    for_each ids (λ id. do pv ← get_parameter_value id; attempt (delete_object pv.id); pure tt)

-- InMemScanConfig.deleteAllParameterValues
unfoldable pub config_delete_all_parameter_values : Ptr → Action (Unit {0})
unfolding deref_as delete_values update_object
config_delete_all_parameter_values config = do
  x ← deref_as as_scan_config config
  delete_values x.parameter_value_ids
  mutate config (map_scan_config (λ y. record y { parameter_value_ids = [] }))
  update_object config

-- InMemScanEvent.deleteAllParameterValues
unfoldable pub scan_event_delete_all_parameter_values : Ptr → Action (Unit {0})
unfolding deref_as delete_values update_object
scan_event_delete_all_parameter_values event = do
  x ← deref_as as_scan_event event
  delete_values x.actual_parameter_value_ids
  mutate event (map_scan_event (λ y. record y { actual_parameter_value_ids = [] }))
  update_object event

-- InMemDockerfileExecEvent.deleteAllParameterValues
unfoldable pub exec_event_delete_all_parameter_values : Ptr → Action (Unit {0})
unfolding deref_as delete_values update_object
exec_event_delete_all_parameter_values event = do
  x ← deref_as as_dockerfile_exec_event event
  delete_values x.actual_parameter_value_ids
  mutate event (map_dockerfile_exec_event (λ y. record y { actual_parameter_value_ids = [] }))
  update_object event

module _ (utilities : Utilities) where
  -- The loop of deleteParameterValue, at index `i`: the first value of that name goes.
  delete_value_from : Ptr → Text → ℕ → List Text → Action (Unit {0})
  unfolding get_parameter_value delete_object update_object
  delete_value_from config name i [] = raise user_error
  delete_value_from config name i (id ∷ ids) = do
    let rest = delete_value_from config name (i + 1) ids
    pv ← get_parameter_value id
    if pv.name == name
        then (do
          mutate config (
              map_scan_config (λ x. record x {
                parameter_value_ids = utilities.remove_at i x.parameter_value_ids;
              }))
          delete_object pv.id
          update_object config)
        else rest

  -- InMemScanConfig.deleteParameterValue
  unfoldable pub delete_parameter_value : Ptr → Text → Action (Unit {0})
  unfolding deref_as delete_value_from
  delete_parameter_value config name = do
    x ← deref_as as_scan_config config
    delete_value_from config name 0 x.parameter_value_ids
