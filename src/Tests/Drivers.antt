-- ===== src/Tests/Drivers.antt =====
-- The theorems on the driver at concrete inputs.
use path_overlay.Base.{
  ◌≡◌, ◌⊎◌, refl, true, false, ◌&&◌, not, none, [], ◌∷◌, ◌++◌, length, drop, arith,
}
use path_overlay.Wide.{Text, is_empty, same_text_refl}
use path_overlay.Driver.Status.{nt_success}
use path_overlay.Driver.Buffers.{text_of}
use path_overlay.Driver.Buffers.Texts.{length-zeros}
use path_overlay.Driver.Components.{match_source_path_prefix, same_or_child_path}
use path_overlay.Driver.Components.Split.{components}
use path_overlay.Driver.Components.Match.{MatchIs, matches_components, match_source_path_prefix_lem}
use path_overlay.Driver.Cache.{find_source_loop}
use path_overlay.Driver.Cache.Find.{matching, only, find_source_loop-only}
use path_overlay.Driver.Cache.Valid.{IsValid}
use path_overlay.Driver.Shadow.{built, overran, build_shadow_path, build_real_path_from_shadow}
use path_overlay.Driver.Shadow.Paths.{
  build_real_path_from_shadow-build_shadow_path, build_shadow_path_overruns,
}
use path_overlay.Driver.Create.{success_no_callback, pre_create}
use path_overlay.Driver.Redirect.{shadow_is_not_redirected}
use path_overlay.Driver.Writes.Prepared.{IsRedirected, IsShadowName}
use path_overlay.Driver.Writes.{pre_create_writes_to_overlay}
use path_overlay.Driver.Port.{unloaded, driver_entry, unload}
use path_overlay.Driver.Port.Events.{handle_all, IsLoaded, IsUnloaded, driver_entry_loads}
use path_overlay.Tests.Volume.{
  volume, source_path, store_path, file_path, entry, connected_driver, some_component, long_store,
  long_path, open_if, Asked, copies-IsPrepared, file_in_rule, shadow_path, file_shadow,
  open_if_writes, open_if_file, below_source, open_if_name, not_service, never_passes, open_shadow,
  open_shadow_name, entry_paths, volume-IsInTime, registration, port_events,
}

match_source_path_prefix_lem_example :
    MatchIs volume
      (not (is_empty file_path)
        && matches_components volume
            (components source_path)
            (components [])
            (components file_path))
      (drop (length (components source_path)) (components file_path))
      file_path
      (match_source_path_prefix volume source_path [] file_path)
match_source_path_prefix_lem_example =
    match_source_path_prefix_lem volume source_path [] file_path some_component

find_source_loop-only_example :
    find_source_loop volume file_path (entry ∷ entry ∷ []) none
    ≡ only (matching volume file_path (entry ∷ entry ∷ []))
find_source_loop-only_example = find_source_loop-only volume file_path (entry ∷ entry ∷ [])

build_real_path_from_shadow-build_shadow_path_example :
    (shadow : Text) × (build_shadow_path volume store_path source_path
        (source_path ++ (92 ∷ 97 ∷ []))
        connected_driver
      ≡ built shadow)
    × (build_real_path_from_shadow volume source_path store_path shadow connected_driver
        ≡ built (source_path ++ (92 ∷ 97 ∷ [])))
build_real_path_from_shadow-build_shadow_path_example =
    build_real_path_from_shadow-build_shadow_path volume connected_driver store_path source_path
      (92 ∷ 97 ∷ []) (omega arith) (omega arith) (omega arith) (omega arith) refl refl

build_shadow_path_overruns_example :
    build_shadow_path volume long_store [] long_path connected_driver ≡ overran
build_shadow_path_overruns_example =
    build_shadow_path_overruns volume connected_driver long_store [] long_path (omega arith)
      (omega (arith, length-zeros 32668)) (omega (arith, length-zeros 519, length-zeros 32668))
      (omega (arith, length-zeros 519, length-zeros 32668)) (λ n. refl)

pre_create_writes_to_overlay_example :
    IsRedirected volume
      (IsShadowName volume entry file_path shadow_path)
      (Asked 2)
      (pre_create volume open_if connected_driver).0
      (pre_create volume open_if connected_driver).1
pre_create_writes_to_overlay_example =
    pre_create_writes_to_overlay volume (Asked 2) open_if file_path entry source_path shadow_path
      connected_driver copies-IsPrepared volume-IsInTime never_passes (λ bytes s. refl)
      (not_service 8 refl) open_if_name file_in_rule file_shadow open_if_file.0 open_if_file.1
      open_if_writes below_source open_if_file.2

shadow_is_not_redirected_example :
    (same_or_child_path volume (text_of entry.store_nt_path) shadow_path ≡ true)
    × ((pre_create volume open_shadow connected_driver).0 ≡ success_no_callback)
shadow_is_not_redirected_example =
    shadow_is_not_redirected volume file_path entry connected_driver.cache connected_driver
      entry_paths.0 (refl, (refl, (refl, (refl, tt)))) (omega arith) file_in_rule file_shadow
      same_text_refl entry_paths.1 open_shadow connected_driver open_shadow_name refl

driver_entry_loads_example :
    let (status, s) = driver_entry registration (unloaded source_path) in
    let t = handle_all port_events s in
    ((nt_success status ≡ false) × IsUnloaded s)
    ⊎ ((nt_success status ≡ true) × IsLoaded t × IsValid t.cache × IsUnloaded (unload t))
driver_entry_loads_example = driver_entry_loads registration port_events source_path
