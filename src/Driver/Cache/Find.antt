-- ===== src/Driver/Cache/Find.antt =====
-- What the search for the rule of a path finds, in driver/PathOverlayFlt/Driver.c.
use path_overlay.Base.{
  ℕ, ◌≡◌, refl, sym, ap, subst, ◌∙◌, ◌⊎◌, inl, inr, Bool, true, false, Bool-cases, Option, none,
  some, Option-cases, List, [], ◌∷◌, if◌then◌else◌, arith,
}
use path_overlay.Base.Lists.{select, Member, here, there}
use path_overlay.Wide.{Text}
use path_overlay.Driver.Kernel.{RuleEntry, RuleCache, Kernel}
use path_overlay.Driver.Buffers.{text_of}
use path_overlay.Driver.Components.{same_or_child_path}
use path_overlay.Driver.Cache.{
  Matched, match_entry, find_source_loop, find_store_loop, is_store_path, matched_source,
  find_source_rule, find_source_rule_for_path,
}

-- The one element of a list that has one.
abbrev pub only : {A : Type 0} → List A → Option A
only (x ∷ []) = some x
only _ = none

Member-cons : {A : Type 0} (y : A) (xs : List A) {x : A} → Member x (y ∷ xs) → (y ≡ x) ⊎ Member x xs
Member-cons y xs here = inl refl
Member-cons y xs (there m) = inr m

module _ {S : Type 0} (kernel : Kernel S) (path : Text) where
  -- The entries that match, with the length of the prefix.
  abbrev pub with_prefix : RuleEntry → Option ℕ → List (RuleEntry × ℕ) → List (RuleEntry × ℕ)
  with_prefix entry none rest = rest
  with_prefix entry (some prefix) rest = (entry, prefix) ∷ rest

  unfoldable pub matching : List RuleEntry → List (RuleEntry × ℕ)
  matching [] = []
  matching (entry ∷ rest) = with_prefix entry (match_entry kernel path entry) (matching rest)

  abbrev in_store : RuleEntry → Bool
  in_store entry = same_or_child_path kernel (text_of entry.store_nt_path) path

  find_source_loop-some :
      (entries : List RuleEntry) (first : RuleEntry × ℕ)
      → find_source_loop kernel path entries (some first) ≡ only (first ∷ matching entries)
  unfolding find_source_loop matching
  find_source_loop-some [] first = refl
  find_source_loop-some (entry ∷ rest) first = elim (Option-cases (match_entry kernel path entry)) [
    | inl miss ↦ rw (miss, find_source_loop) (find_source_loop-some rest first)
    | inr (prefix, hit) ↦ rw (hit, find_source_loop) refl
  ]

  -- The search finds the entry whose source matches the path if it is the only one, and nothing if there
  -- is none or more than one.
  pub find_source_loop-only :
      (entries : List RuleEntry)
      → find_source_loop kernel path entries none ≡ only (matching entries)
  unfolding find_source_loop matching
  find_source_loop-only [] = refl
  find_source_loop-only (entry ∷ rest) = elim (Option-cases (match_entry kernel path entry)) [
    | inl miss ↦ rw (miss, find_source_loop) (find_source_loop-only rest)
    | inr (prefix, hit) ↦ rw (hit, find_source_loop) (find_source_loop-some rest (entry, prefix))
  ]

  find_store_loop-some :
      (entries : List RuleEntry) (first : RuleEntry)
      → find_store_loop kernel path entries (some first) ≡ only (first ∷ select in_store entries)
  unfolding find_store_loop select
  find_store_loop-some [] first = refl
  find_store_loop-some (entry ∷ rest) first = elim (Bool-cases (in_store entry)) [
    | inr miss ↦ rw (miss) (find_store_loop-some rest first)
    | inl hit ↦ rw (hit) refl
  ]

  pub find_store_loop-only :
      (entries : List RuleEntry)
      → find_store_loop kernel path entries none ≡ only (select in_store entries)
  unfolding find_store_loop select
  find_store_loop-only [] = refl
  find_store_loop-only (entry ∷ rest) = elim (Bool-cases (in_store entry)) [
    | inr miss ↦ rw (miss) (find_store_loop-only rest)
    | inl hit ↦ rw (hit) (find_store_loop-some rest entry)
  ]

  matching-Member :
      (entries : List RuleEntry) {entry : RuleEntry} {prefix : ℕ}
      → Member (entry, prefix) (matching entries)
      → Member entry entries × (match_entry kernel path entry ≡ some prefix)
  unfolding matching
  matching-Member [] m = elim m [ ]
  matching-Member (first ∷ rest) {entry} {prefix} m =
      go (matching-Member rest) (match_entry kernel path first) refl m
    where
      go :
          (Member (entry, prefix) (matching rest)
            → Member entry rest × (match_entry kernel path entry ≡ some prefix))
          → (o : Option ℕ) → match_entry kernel path first ≡ o
          → Member (entry, prefix) (with_prefix first o (matching rest))
          → Member entry (first ∷ rest) × (match_entry kernel path entry ≡ some prefix)
      go later none e m = let (k, h) = later m in (there k, h)
      go later (some n) e m = elim (Member-cons (first, n) (matching rest) m) [
        | inl same ↦ (
          subst (λ r. Member r (first ∷ rest)) (ap (λ r. r.0) same) here,
          subst (λ r. match_entry kernel path r ≡ some prefix) (ap (λ r. r.0) same)
              (e ∙ ap (λ r. some r.1) same),
        )
        | inr m' ↦ let (k, h) = later m' in (there k, h)
      ]

  only-Member : {A : Type 0} (xs : List A) {x : A} → only xs ≡ some x → Member x xs
  only-Member [] h = cc
  only-Member (y ∷ []) {x} h = let same : y ≡ x = cc in subst (λ z. Member z (y ∷ [])) same here
  only-Member (x ∷ y ∷ xs) h = cc

  pub is_store_path-Member :
      (entries : List RuleEntry) {entry : RuleEntry}
      → Member entry entries
      → in_store entry ≡ true
      → is_store_path kernel path entries ≡ true
  unfolding is_store_path
  is_store_path-Member (entry ∷ rest) here h = rw (h) refl
  is_store_path-Member (other ∷ rest) (there m) h = ground (arith, is_store_path-Member rest m h)
  is_store_path-Member [] m h = elim m [ ]

  -- The rule that the search finds is in the cache, and its source matches the path.
  pub find_source_rule_for_path-Member :
      (cache : RuleCache) {rule : RuleEntry} {matched : Text}
      → find_source_rule_for_path kernel cache path ≡ some (rule, matched)
      → (prefix : ℕ) × Member rule cache.rules
        × (match_entry kernel path rule ≡ some prefix)
        × (matched ≡ matched_source kernel path prefix)
  unfolding find_source_rule_for_path find_source_rule
  find_source_rule_for_path-Member cache {rule} {matched} h =
      go (find_source_loop kernel path cache.rules none) (find_source_loop-only cache.rules)
        (inner _ _ h)
    where
      inner :
          (closed : Bool) (found : Option Matched)
          → (if closed then none else found) ≡ some (rule, matched)
          → found ≡ some (rule, matched)
      inner true found h = cc
      inner false found h = h

      go :
          (found : Option (RuleEntry × ℕ))
          → found ≡ only (matching cache.rules)
          → (elim found as (λ _. Option Matched) [
            | none ↦ none
            | some (entry, prefix) ↦ some (entry, matched_source kernel path prefix)
          ])
            ≡ some (rule, matched)
          → (prefix : ℕ) × Member rule cache.rules
            × (match_entry kernel path rule ≡ some prefix)
            × (matched ≡ matched_source kernel path prefix)
      go none e k = cc
      go (some (entry, prefix)) e k =
          let same : entry ≡ rule = cc in
          let (m, hit) = matching-Member cache.rules (only-Member (matching cache.rules) (sym e)) in
          (
            prefix,
            subst (λ r. Member r cache.rules) same m,
            subst (λ r. match_entry kernel path r ≡ some prefix) same hit,
            cc,
          )
