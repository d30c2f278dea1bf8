-- ===== src/Rules/Mapped.antt =====
-- What `MapRealPathToShadowPath` of common/path_overlay_common.cpp returns.
use path_overlay.Base.{◌≡◌, some, arith}
use path_overlay.Wide.{Text}
use path_overlay.Os.{Os}
use path_overlay.Rules.{OverlayRule, shadow_path, map_real_path_to_shadow_path}

module _ (os : Os) where
  pub map_real_path_to_shadow_path-eq :
      (fs : os.Fs) (rule : OverlayRule) (real_path : Text) {p : Text}
      → map_real_path_to_shadow_path os fs rule real_path ≡ some p
      → p ≡ shadow_path os rule real_path
  unfolding map_real_path_to_shadow_path
  map_real_path_to_shadow_path-eq fs rule real_path h = ground arith
