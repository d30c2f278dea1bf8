-- ===== src/Driver/Redirect.antt =====
-- Where `PathOverlayPreCreate` of driver/PathOverlayFlt/Driver.c sends a path, and what it does when the
-- path that it named comes back to it.
use path_overlay.Base.{
  ℕ, zero, suc, ◌≤◌, ◌<◌, ◌≡◌, ◌≢◌, refl, sym, ap, subst, ◌∙◌, Bool, true, false, ◌&&◌, not, inl,
  inr, Bool-cases, none, some, List, [], ◌∷◌, ◌++◌, length, take, drop, ◌==◌, arith,
}
use mathlib.Core.Bool.{false≢true}
use path_overlay.Base.Lists.{Member}
use path_overlay.Wide.{Text, is_empty}
use path_overlay.Driver.Kernel.{RuleEntry, RuleCache, DriverState, Kernel, ◌>>=◌, ◌>>◌, pure, reads}
use path_overlay.Driver.Buffers.{text_of}
use path_overlay.Driver.Buffers.Texts.{HasNoZero, text_of-copy_null_terminated}
use path_overlay.Driver.Components.{same_or_child_path}
use path_overlay.Driver.Components.Split.{components, IsBoundary}
use path_overlay.Driver.Components.Match.{MatchIs, matches_components, match_source_path_prefix_lem}
use path_overlay.Driver.Cache.{
  is_service_process, is_store_path, match_entry, matched_source, find_source_rule_for_path,
}
use path_overlay.Driver.Cache.Find.{is_store_path-Member, find_source_rule_for_path-Member}
use path_overlay.Driver.Access.{named, CreateCall, file_name}
use path_overlay.Driver.Shadow.{built, build_shadow_path}
use path_overlay.Driver.Shadow.Paths.{build_shadow_path-built, same_or_child_path-append}
use path_overlay.Driver.Create.{success_no_callback, source_of, pre_create}

-- A path in a store is no path of a source.
module _ {S : Type 0} (kernel : Kernel S) where
  find_in_store :
      (cache : RuleCache) (path : Text)
      → is_store_path kernel path cache.rules ≡ true
      → find_source_rule_for_path kernel cache path ≡ none
  unfolding find_source_rule_for_path
  find_in_store cache path h = elim (Bool-cases (length cache.rules == 0)) [
    | inl empty ↦ rw (empty) refl
    | inr some_rule ↦ rw (some_rule, h) refl
  ]

  passes_in_store :
      (call : CreateCall) (t : DriverState S) (path : Text)
      → file_name call.normalized_name call.opened_name ≡ named path
      → is_store_path kernel path t.cache.rules ≡ true
      → (pre_create kernel call t).0 ≡ success_no_callback
  unfolding pre_create ◌>>=◌ ◌>>◌ pure reads
  passes_in_store call t path name in_store =
      elim (Bool-cases (is_service_process t.cache call.requestor)) [
        | inl service ↦ rw (service) refl
        | inr other ↦ rw (other, name, find_in_store t.cache path in_store) refl
      ]

-- `RtlEqualUnicodeString` finds a text equal to itself.
abbrev pub EqualsItself : {S : Type 0} → Kernel S → Type 0
EqualsItself kernel = (text : Text) → kernel.equal_unicode_string text text ≡ true

length-take : (n : ℕ) (text : Text) → n ≤ length text → length (take n text) ≡ n
length-take zero text h = refl
length-take (suc n) [] h = absurd (omega arith)
length-take (suc n) (ch ∷ text) h = omega (arith, length-take n text)

not_all_left : (xs : List Text) (k : ℕ) → 0 < k → xs ≡ drop k xs → xs ≡ []
not_all_left [] k h e = refl
not_all_left (x ∷ xs) zero h e = absurd (omega arith)
not_all_left (x ∷ xs) (suc k) h e = absurd (too_long xs k (ap length e))
  where
    length-drop-le : (ys : List Text) (k : ℕ) → length (drop k ys) ≤ length ys
    length-drop-le ys zero = omega arith
    length-drop-le [] (suc k) = omega arith
    length-drop-le (y ∷ ys) (suc k) = omega (arith, length-drop-le ys k)

    too_long : (ys : List Text) (k : ℕ) → suc (length ys) ≢ length (drop k ys)
    too_long ys k e = omega (arith, length-drop-le ys k)

some_left : (xs : List Text) → xs ≢ [] → 0 < length xs
some_left [] h = absurd (h refl)
some_left (x ∷ xs) h = omega arith

nothing_matches :
    {S : Type 0} (kernel : Kernel S) (xs aliases : List Text)
    → xs ≢ []
    → matches_components kernel xs aliases [] ≡ false
unfolding matches_components
nothing_matches kernel [] aliases h = absurd (h refl)
nothing_matches kernel (x ∷ xs) aliases h = refl

module _ {S : Type 0} (kernel : Kernel S) (path : Text) (rule : RuleEntry) where
  abbrev source : Text
  source = text_of rule.source_nt_path

  abbrev source_alias : Text
  source_alias = text_of rule.source_alias_nt_path

  -- A prefix that matches has a character, and ends where a component ends.
  match_entry-IsBoundary :
      (prefix : ℕ)
      → components source ≢ []
      → match_entry kernel path rule ≡ some prefix
      → (0 < prefix) × (prefix ≤ length path) × IsBoundary (drop prefix path)
  unfolding match_entry
  match_entry-IsBoundary prefix some_component hit =
      let (matches, left, boundary, within) =
        subst
          (MatchIs kernel
            (not (is_empty path)
              && matches_components kernel (components source) (components source_alias)
                  (components path))
            (drop (length (components source)) (components path)) path)
          hit (match_source_path_prefix_lem kernel source source_alias path some_component) in
      (positive prefix matches left, within, boundary)
    where
      both : (a b : Bool) → (a && b) ≡ true → b ≡ true
      both a b h = ground arith

      positive :
          (n : ℕ)
          → (not (is_empty path)
              && matches_components kernel
                  (components source)
                  (components source_alias)
                  (components path))
            ≡ true
          → components (drop n path) ≡ drop (length (components source)) (components path)
          → 0 < n
      positive (suc n) matches left = omega arith
      positive zero matches left =
          let empty : components path ≡ [] =
            not_all_left (components path) _ (some_left _ some_component) left in
          absurd (
            false≢true (
              sym (
                nothing_matches kernel (components source) (components source_alias) some_component)
              ∙ (ap (matches_components kernel (components source) (components source_alias))
                    (sym empty)
                  ∙ both _ _ matches)))

  -- The shadow that `PathOverlayPreCreate` builds is the store with what stands behind the prefix.
  module _ (cache : RuleCache) (s : DriverState S) {matched shadow : Text}
      (some_component : components source ≢ []) (no_zero : HasNoZero path)
      (fits : length path < 520)
      (found : find_source_rule_for_path kernel cache path ≡ some (rule, matched))
      (is_built : build_shadow_path kernel
          (text_of rule.store_nt_path)
          (source_of rule matched)
          path
          s
        ≡ built shadow) where
    shadow_of_prefix :
        Member rule cache.rules
        × ((rest : Text) × (shadow ≡ text_of rule.store_nt_path ++ rest) × IsBoundary rest)
    unfolding matched_source source_of
    shadow_of_prefix =
        let (prefix, member, hit, named_by) =
          find_source_rule_for_path-Member kernel path cache found in
        let (positive, within, boundary) = match_entry-IsBoundary prefix some_component hit in
        let cut : matched ≡ take prefix path =
          named_by ∙ text_of-copy_null_terminated 520 prefix path (omega arith) no_zero in
        let (l, joined) =
          build_shadow_path-built kernel s (text_of rule.store_nt_path) (source_of rule matched)
            path (omega arith) is_built in
        let size : length (source_of rule matched) ≡ prefix =
          rw (cut, some_char prefix path positive within) (length-take prefix path within) in
        (
          member,
          (
            drop prefix path,
            joined ∙ ap (λ n. text_of rule.store_nt_path ++ drop n path) size,
            boundary,
          ),
        )
      where
        some_char : (n : ℕ) (text : Text) → 0 < n → n ≤ length text → is_empty (take n text) ≡ false
        some_char zero text p l = absurd (omega arith)
        some_char (suc n) [] p l = absurd (omega arith)
        some_char (suc n) (ch ∷ text) p l = refl

    -- The shadow that `PathOverlayPreCreate` builds for a path of a rule is in the rule's store, so that
    -- the create that comes back with the shadow for its name passes through as long as the cache is
    -- the same: a call is sent on at most once. The path fits a request and has no zero, the source of the
    -- rule has a component and the store a character, and `RtlEqualUnicodeString` finds a text equal to itself.
    pub shadow_is_not_redirected :
        EqualsItself kernel
        → is_empty (text_of rule.store_nt_path) ≡ false
        → (call : CreateCall) (t : DriverState S)
        → file_name call.normalized_name call.opened_name ≡ named shadow
        → t.cache ≡ cache
        → (same_or_child_path kernel (text_of rule.store_nt_path) shadow ≡ true)
          × ((pre_create kernel call t).0 ≡ success_no_callback)
    shadow_is_not_redirected reflexive some_store call t name same =
        let (member, (rest, joined, boundary)) = shadow_of_prefix in
        let inside : same_or_child_path kernel (text_of rule.store_nt_path) shadow ≡ true =
          rw (joined) (
            same_or_child_path-append kernel s (text_of rule.store_nt_path) rest (reflexive _)
              some_store boundary) in
        let is_store : is_store_path kernel shadow cache.rules ≡ true =
          is_store_path-Member kernel shadow cache.rules member inside in
        (
          inside,
          passes_in_store kernel call t shadow name
              (ap (λ c. is_store_path kernel shadow c.rules) same ∙ is_store),
        )
