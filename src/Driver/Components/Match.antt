-- ===== src/Driver/Components/Match.antt =====
-- `PathOverlayMatchSourcePathPrefix` of driver/PathOverlayFlt/Driver.c on the components of the paths.
use path_overlay.Base.{
  ℕ, zero, suc, ◌+◌, ◌≤◌, ◌<◌, ◌≡◌, ◌≢◌, refl, sym, ap, ◌∙◌, Bool, true, false, ◌&&◌, not,
  Bool-cases, inl, inr, Option, none, some, List, [], ◌∷◌, length, drop, if◌then◌else◌, arith,
}
use path_overlay.Wide.{Text, is_empty}
use path_overlay.Driver.Kernel.{Kernel}
use path_overlay.Driver.Components.{
  PathComponent, component_text, component_text?, offset_behind, next_path_component,
  component_matches, match_components, match_source_path_prefix,
}
use path_overlay.Driver.Components.Split.{
  components, IsBoundary, NextIs, next_path_component_lem, no_components, drop-length,
}

abbrev pub first : List Text → Option Text
first [] = none
first (c ∷ cs) = some c

abbrev pub others : List Text → List Text
others [] = []
others (c ∷ cs) = cs

module _ {S : Type 0} (kernel : Kernel S) where
  -- Every component of the source is matched by the component of the path at its place, as it is or by
  -- the component of the alias at that place.
  unfoldable pub matches_components : List Text → List Text → List Text → Bool
  matches_components [] aliases path = true
  matches_components (s ∷ source) aliases [] = false
  matches_components (s ∷ source) aliases (p ∷ path) =
      component_matches kernel p s (first aliases)
      && matches_components source (others aliases) path

  -- What a match returns: nothing, or an offset with the components behind it.
  abbrev pub MatchIs : Bool → List Text → Text → Option ℕ → Type 0
  MatchIs matches left path none = matches ≡ false
  MatchIs matches left path (some n) =
      (matches ≡ true)
      × (components (drop n path) ≡ left)
      × IsBoundary (drop n path)
      × (n ≤ length path)

  alias_step :
      (value : Text) (offset : ℕ)
      → (first (components (drop offset value))
          ≡ component_text? value (next_path_component value offset))
        × (others (components (drop offset value))
            ≡ components (drop (offset_behind value (next_path_component value offset)) value))
  alias_step value offset =
      go (next_path_component value offset) (next_path_component_lem value offset)
    where
      go :
          (c : Option PathComponent)
          → NextIs value offset c
          → (first (components (drop offset value)) ≡ component_text? value c)
            × (others (components (drop offset value))
                ≡ components (drop (offset_behind value c) value))
      go none h = (
        ap first h,
        ap others h ∙ sym (ap components (drop-length value) ∙ no_components [] (omega arith)),
      )
      go (some c) (h, b, l, m) = (ap first h, ap others h)

  match_components_lem :
      (fuel : ℕ) (source source_alias path : Text) (so ao po : ℕ)
      → length source < so + fuel
      → so ≤ length source
      → po ≤ length path
      → (components (drop so source) ≡ [] → IsBoundary (drop po path))
      → MatchIs
          (matches_components
            (components (drop so source))
            (components (drop ao source_alias))
            (components (drop po path)))
          (drop (length (components (drop so source))) (components (drop po path)))
          path
          (match_components kernel fuel source source_alias path so ao po)
  unfolding match_components matches_components
  match_components_lem zero source source_alias path so ao po f l m b = absurd (omega arith)
  match_components_lem (suc fuel) source source_alias path so ao po f l m b =
      go (λ s' a' p'. match_components_lem fuel source source_alias path s' a' p')
        (next_path_component source so) (next_path_component_lem source so)
        (next_path_component path po) (next_path_component_lem path po)
    where
      go :
          ((s' a' p' : ℕ)
            → length source < s' + fuel
            → s' ≤ length source
            → p' ≤ length path
            → (components (drop s' source) ≡ [] → IsBoundary (drop p' path))
            → MatchIs
                (matches_components
                  (components (drop s' source))
                  (components (drop a' source_alias))
                  (components (drop p' path)))
                (drop (length (components (drop s' source))) (components (drop p' path)))
                path
                (match_components kernel fuel source source_alias path s' a' p'))
          → (s : Option PathComponent) → NextIs source so s
          → (p : Option PathComponent) → NextIs path po p
          → MatchIs
              (matches_components
                (components (drop so source))
                (components (drop ao source_alias))
                (components (drop po path)))
              (drop (length (components (drop so source))) (components (drop po path)))
              path
              (elim s as (λ _. Option ℕ) [
                | none ↦ some po
                | some s' ↦ elim p as (λ _. Option ℕ) [
                  | none ↦ none
                  | some p' ↦
                      if component_matches kernel
                        (component_text path p')
                        (component_text source s')
                        (component_text? source_alias (next_path_component source_alias ao))
                      then match_components kernel fuel source source_alias path s'.offset
                          (offset_behind source_alias (next_path_component source_alias ao))
                          p'.offset
                      else none
                ]
              ])
      go again none h p k = rw (h) (refl, refl, b h, m)
      go again (some s) (h, _, _, _) none k = rw (h, k) refl
      go again (some s) (h, hb, hl, hm) (some p) (k, kb, kl, km) =
          let (one, more) = alias_step source_alias ao in
          let matched =
            component_matches kernel (component_text path p) (component_text source s)
              (component_text? source_alias (next_path_component source_alias ao)) in
          elim (Bool-cases matched) [
            | inl hit ↦
                rw (h, k, one, more, hit)
                  (again s.offset (offset_behind source_alias (next_path_component source_alias ao))
                    p.offset (omega arith) hm km (λ _. kb))
            | inr miss ↦ rw (h, k, one, miss) refl
          ]

  -- The path is matched exactly if it and the source are not empty and every component of the source is
  -- matched by the component of the path at its place, as it is or by the component of the alias at that
  -- place; the prefix then ends at a backslash or at the end of the path, if the source has a component,
  -- and leaves the components of the path behind those of the source.
  pub match_source_path_prefix_lem :
      (source source_alias path : Text)
      → components source ≢ []
      → MatchIs
          (not (is_empty path)
            && matches_components (components source) (components source_alias) (components path))
          (drop (length (components source)) (components path))
          path
          (match_source_path_prefix kernel source source_alias path)
  unfolding match_source_path_prefix
  match_source_path_prefix_lem [] source_alias path h = absurd (h (no_components [] (omega arith)))
  match_source_path_prefix_lem (ch ∷ source) source_alias [] h = refl
  match_source_path_prefix_lem (ch ∷ source) source_alias (d ∷ path) h =
      match_components_lem (suc (length (ch ∷ source))) (ch ∷ source) source_alias (d ∷ path) 0 0 0
        (omega arith) (omega arith) (omega arith) (λ none_left. absurd (h none_left))
