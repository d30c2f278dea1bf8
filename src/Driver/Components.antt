-- ===== src/Driver/Components.antt =====
-- The components of a path, and the match of a path with a source and its alias, in
-- driver/PathOverlayFlt/Driver.c. A `UNICODE_STRING` is its text, and a length counts characters.
pub mod Split
pub mod Match
use path_overlay.Base.{
  ℕ, zero, suc, ◌+◌, ◌-◌, Bool, true, false, ◌&&◌, ◌||◌, not, Option, none, some, List, [], ◌∷◌,
  length, take, drop, ltb, leb, ◌==◌, if◌then◌else◌,
}
use path_overlay.Wide.{Text, backslash, is_empty}
use path_overlay.Driver.Kernel.{Kernel}

-- The two loops of `PathOverlayNextPathComponent`: how many backslashes stand at the front, and how many
-- characters before the next backslash.
unfoldable pub count_separators : Text → ℕ
count_separators [] = 0
count_separators (ch ∷ rest) = if ch == backslash then suc (count_separators rest) else 0

unfoldable pub count_component : Text → ℕ
count_component [] = 0
count_component (ch ∷ rest) = if ch == backslash then 0 else suc (count_component rest)

-- A component, from `start` on, and the offset behind it.
pub record PathComponent : Type 0 where
  pub start : ℕ
  pub size : ℕ
  pub offset : ℕ

-- `PathOverlayNextPathComponent`; `none` is `FALSE`.
unfoldable pub next_path_component : Text → ℕ → Option PathComponent
unfolding count_separators count_component
next_path_component value offset =
    let start = offset + count_separators (drop offset value) in
    let size = count_component (drop start value) in
    if leb (length value) start
    then none
    else some (record { start = start; size = size; offset = start + size })

-- `Value + start` with the length of the component.
abbrev pub component_text : Text → PathComponent → Text
component_text value c = take c.size (drop c.start value)

abbrev pub component_text? : Text → Option PathComponent → Option Text
component_text? value none = none
component_text? value (some c) = some (component_text value c)

-- The offset behind a component that may be missing: a call that fails leaves it at the end.
abbrev pub offset_behind : Text → Option PathComponent → ℕ
offset_behind value none = length value
offset_behind value (some c) = c.offset

module _ {S : Type 0} (kernel : Kernel S) where
  -- `PathOverlayEqualPathComponent`
  abbrev pub equal_path_component : Text → Text → Bool
  equal_path_component left right = kernel.equal_unicode_string left right

  -- `longMatched || aliasMatched`
  unfoldable pub component_matches : Text → Text → Option Text → Bool
  component_matches path source source_alias =
      equal_path_component path source
      || elim source_alias [ none ↦ false | some name ↦ equal_path_component path name ]

  -- The loop of `PathOverlayMatchSourcePathPrefix`, with the three offsets; an alias that is empty or
  -- `NULL` is the empty text, which has no component. Each round moves the offset of the source on, so
  -- that the fuel, one more than the length of the source, is enough.
  unfoldable pub match_components : ℕ → Text → Text → Text → ℕ → ℕ → ℕ → Option ℕ
  unfolding next_path_component component_matches
  match_components zero source source_alias path source_offset alias_offset path_offset = none
  match_components (suc fuel) source source_alias path source_offset alias_offset path_offset =
      elim (next_path_component source source_offset) [
        | none ↦ some path_offset
        | some s ↦ elim (next_path_component path path_offset) [
          | none ↦ none
          | some p ↦
              let a = next_path_component source_alias alias_offset in
              let rest =
                match_components fuel source source_alias path s.offset
                  (offset_behind source_alias a) p.offset in
              if component_matches (component_text path p) (component_text source s)
                (component_text? source_alias a)
              then rest
              else none
        ]
      ]

  -- `PathOverlayMatchSourcePathPrefix`: the length of the prefix that matches.
  unfoldable pub match_source_path_prefix : Text → Text → Text → Option ℕ
  unfolding match_components
  match_source_path_prefix source source_alias path =
      if is_empty source || is_empty path
      then none
      else match_components (suc (length source)) source source_alias path 0 0 0

  -- `PathOverlaySameOrChildPath`
  unfoldable pub same_or_child_path : Text → Text → Bool
  same_or_child_path parent child =
      if is_empty parent || ltb (length child) (length parent)
      then false
      else if not (kernel.equal_unicode_string parent (take (length parent) child))
      then false
      else elim (drop (length parent) child) [ [] ↦ true | ch ∷ _ ↦ ch == backslash ]
