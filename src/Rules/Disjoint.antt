-- ===== src/Rules/Disjoint.antt =====
-- What `ValidateOverlayRule` and `ValidateOverlayRuleSet` of common/path_overlay_common.cpp accept.
use path_overlay.Base.{
  ℕ, ◌++◌, ap, subst, length, length-append, ◌≡◌, true, false, Bool-cases, inl, inr, List, ◌∷◌,
  arith, sym, ◌∙◌,
}
use mathlib.Core.Bool.{false≢true}
use mathlib.Core.List.{append_cancel_left}
use path_overlay.Wide.{Text, is_empty}
use path_overlay.Os.{Os}
use path_overlay.Paths.{
  is_slash, normalize_path, same_or_child_path, is_unc_path, is_drive_root_path,
}
use path_overlay.Paths.Child.{Apart, canonical, SlashHead, same_or_child_path_sound}
use path_overlay.Rules.{OverlayRule, is_ok, store_root, validate_paths, validate_overlay_rule}

module _ (os : Os) where
  -- The paths of a rule that `ValidateOverlayRule` accepts.
  pub record HasValidPaths (rule : OverlayRule) : Type 0 where
    pub source_nonempty : is_empty (normalize_path os rule.source) ≡ false
    pub store_nonempty : is_empty (store_root os rule) ≡ false
    pub source_not_unc : is_unc_path (normalize_path os rule.source) ≡ false
    pub store_not_unc : is_unc_path (store_root os rule) ≡ false
    pub not_drive_root : is_drive_root_path os (normalize_path os rule.source) ≡ false
    pub apart : Apart os (normalize_path os rule.source) (store_root os rule)

  -- A rule that is accepted has paths that are not empty and not UNC, a source that is no drive root,
  -- and a source and a store of which neither contains the other.
  pub validate_overlay_rule-HasValidPaths :
      (fs : os.Fs) (rule : OverlayRule)
      → is_ok (validate_overlay_rule os fs rule) ≡ true
      → HasValidPaths rule
  unfolding validate_overlay_rule validate_paths
  validate_overlay_rule-HasValidPaths fs rule h = ground arith

  -- The sources of two rules are apart, and so are the source of each and the store of the other.
  pub record AreDisjoint (a b : OverlayRule) : Type 0 where
    pub sources : Apart os (normalize_path os a.source) (normalize_path os b.source)
    pub source_store : Apart os (normalize_path os a.source) (store_root os b)
    pub store_source : Apart os (store_root os a) (normalize_path os b.source)

  -- No path is contained in the sources of both rules.
  abbrev pub ShareNothing : OverlayRule → OverlayRule → Type 0
  ShareNothing a b =
      (path : Text)
      → same_or_child_path os (normalize_path os a.source) path ≡ true
      → same_or_child_path os (normalize_path os b.source) path ≡ false

module _ (os : Os) (source store : Text) (c : ℕ) (rest : Text) where
  -- `source` goes on from `store` with a code unit that is no separator, as a directory at the root
  -- of a drive goes on from the root, which keeps its separator.
  module _ (e : canonical os source ≡ canonical os store ++ (c ∷ rest))
      (plain : is_slash c ≡ false) where
    root_contains_nothing : same_or_child_path os store source ≡ false
    root_contains_nothing = elim (Bool-cases (same_or_child_path os store source)) [
      | inl contains ↦
          let (r, f, h) = same_or_child_path_sound os store source contains in
          let same : c ∷ rest ≡ r = append_cancel_left (canonical os store) _ _ (sym e ∙ f) in
          absurd (false≢true (sym plain ∙ subst SlashHead (sym same) h))
      | inr apart ↦ apart
    ]

    longer_contains_nothing : same_or_child_path os source store ≡ false
    longer_contains_nothing = elim (Bool-cases (same_or_child_path os source store)) [
      | inl contains ↦
          let (r, f, h) = same_or_child_path_sound os source store contains in
          absurd (
            omega (
              arith,
              ap length e,
              ap length f,
              length-append (canonical os source) r,
              length-append (canonical os store) (c ∷ rest),
            ))
      | inr apart ↦ apart
    ]

    -- The checks of the paths accept a store that is the root of a drive above the source: a source
    -- that goes on from the store with no separator between them passes, if the paths are not empty
    -- and not UNC and the source is no drive root.
    pub drive_root_store_is_accepted :
        is_empty source ≡ false
        → is_empty store ≡ false
        → is_unc_path source ≡ false
        → is_unc_path store ≡ false
        → is_drive_root_path os source ≡ false
        → is_ok (validate_paths os source store) ≡ true
    unfolding validate_paths
    drive_root_store_is_accepted a b u v d =
        rw (a, b, u, v, d, root_contains_nothing, longer_contains_nothing)
