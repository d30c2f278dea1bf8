-- ===== src/Paths/Child.antt =====
-- `SameOrChildPath` of common/path_overlay_common.cpp against the notion that it decides.
use path_overlay.Base.{◌≡◌, refl, sym, ◌∙◌, ◌⊎◌, inl, inr, true, false}
use path_overlay.Base.{[], ◌∷◌, ◌++◌, length, drop, arith, Bool-cases}
use path_overlay.Base.{length-append}
use mathlib.Core.List.{append_assoc, append-nil}
use mathlib.Core.Bool.{false≢true}
use path_overlay.Wide.{Text, same_text, same_text_sound, same_text_refl, starts_with}
use path_overlay.Os.{Os}
use path_overlay.Paths.{
  is_slash, to_lower, trim_trailing_slashes, same_or_child_text, same_or_child_path,
}

-- The text is empty or begins with a separator.
abbrev pub SlashHead : Text → Type 0
SlashHead [] = Unit
SlashHead (ch ∷ rest) = is_slash ch ≡ true

-- `child` is `parent`, or goes on from it at a separator.
abbrev pub Below : Text → Text → Type 0
Below parent child = (rest : Text) × (child ≡ parent ++ rest) × SlashHead rest

starts_with-append : (p r : Text) → starts_with (p ++ r) p ≡ true
unfolding starts_with
starts_with-append [] [] = refl
starts_with-append [] (c ∷ r) = refl
starts_with-append (c ∷ p) r = ground (arith, starts_with-append p r)

pub starts_with_sound : (s p : Text) → starts_with s p ≡ true → s ≡ p ++ drop (length p) s
unfolding starts_with
starts_with_sound s [] h = refl
starts_with_sound [] (c ∷ p) h = cc
starts_with_sound (d ∷ s) (c ∷ p) h = ground (arith, starts_with_sound s p)

drop-append : (p r : Text) → drop (length p) (p ++ r) ≡ r
drop-append [] r = refl
drop-append (c ∷ p) r = drop-append p r

SlashHead-tail :
    (rest : Text) → (elim rest [ [] ↦ false | ch ∷ more ↦ is_slash ch ]) ≡ true → SlashHead rest
SlashHead-tail [] h = tt
SlashHead-tail (ch ∷ more) h = h

pub same_or_child_text_sound : (p c : Text) → same_or_child_text p c ≡ true → Below p c
unfolding same_or_child_text
same_or_child_text_sound p c h = elim (Bool-cases (same_text p c)) [
  | inl same ↦ ([], sym (same_text_sound p c same) ∙ sym (append-nil p), tt)
  | inr other ↦
      let rest = drop (length p) c in
      let starts : starts_with c p ≡ true = ground arith in
      (rest, starts_with_sound c p starts, SlashHead-tail rest (ground arith))
]

pub Below-same_or_child_text : (p c : Text) → Below p c → same_or_child_text p c ≡ true
unfolding same_or_child_text
Below-same_or_child_text p c ([], e, s) = rw (e, append-nil, same_text_refl p)
Below-same_or_child_text p c (ch ∷ rest, e, s) =
    rw (e, starts_with-append, drop-append) (ground (arith, length-append p (ch ∷ rest)))

pub Below-refl : (p : Text) → Below p p
Below-refl p = ([], sym (append-nil p), tt)

SlashHead-append : (r s : Text) → SlashHead r → SlashHead s → SlashHead (r ++ s)
SlashHead-append [] s h k = k
SlashHead-append (c ∷ r) s h k = h

pub Below-trans : (p c d : Text) → Below p c → Below c d → Below p d
Below-trans p c d (r, e, h) (s, f, k) =
    (r ++ s, f ∙ (rw e (append_assoc p r s)), SlashHead-append r s h k)

pub Below-comparable :
    (p q r s : Text) → p ++ r ≡ q ++ s → SlashHead r → SlashHead s → Below p q ⊎ Below q p
Below-comparable [] [] r s e h k = inl ([], refl, tt)
Below-comparable [] (y ∷ q) [] s e h k = cc
Below-comparable [] (y ∷ q) (c ∷ r) s e h k = inl (y ∷ q, refl, ground arith)
Below-comparable (x ∷ p) [] r [] e h k = cc
Below-comparable (x ∷ p) [] r (d ∷ s) e h k = inr (x ∷ p, refl, ground arith)
Below-comparable (x ∷ p) (y ∷ q) r s e h k =
    let heads : x ≡ y = cc in
    let tails : p ++ r ≡ q ++ s = cc in
    elim (Below-comparable p q r s tails h k) [
      | inl (rest, f, l) ↦ inl (rest, cc, l)
      | inr (rest, f, l) ↦ inr (rest, cc, l)
    ]

module _ (os : Os) where
  -- A path as `SameOrChildPath` compares it.
  abbrev pub canonical : Text → Text
  canonical p = to_lower os (trim_trailing_slashes p)

  pub same_or_child_path_sound :
      (p c : Text) → same_or_child_path os p c ≡ true → Below (canonical p) (canonical c)
  unfolding same_or_child_path
  same_or_child_path_sound p c h = same_or_child_text_sound _ _ h

  pub Below-same_or_child_path :
      (p c : Text) → Below (canonical p) (canonical c) → same_or_child_path os p c ≡ true
  unfolding same_or_child_path
  Below-same_or_child_path p c h = Below-same_or_child_text _ _ h

  -- Each path contains itself.
  pub same_or_child_path_refl : (p : Text) → same_or_child_path os p p ≡ true
  same_or_child_path_refl p = Below-same_or_child_path p p (Below-refl _)

  -- A path that contains a second one contains what the second one contains.
  pub same_or_child_path_trans :
      (p c d : Text)
      → same_or_child_path os p c ≡ true
      → same_or_child_path os c d ≡ true
      → same_or_child_path os p d ≡ true
  same_or_child_path_trans p c d h k =
      Below-same_or_child_path p d
        (Below-trans _ _ _ (same_or_child_path_sound p c h) (same_or_child_path_sound c d k))

  -- Of two paths that contain a third, one contains the other.
  pub same_or_child_path_comparable :
      (p q c : Text)
      → same_or_child_path os p c ≡ true
      → same_or_child_path os q c ≡ true
      → (same_or_child_path os p q ≡ true) ⊎ (same_or_child_path os q p ≡ true)
  same_or_child_path_comparable p q c h k =
      let (r, e, u) = same_or_child_path_sound p c h in
      let (s, f, v) = same_or_child_path_sound q c k in
      elim (Below-comparable _ _ r s (sym e ∙ f) u v) [
        | inl below ↦ inl (Below-same_or_child_path p q below)
        | inr below ↦ inr (Below-same_or_child_path q p below)
      ]

  -- Neither path contains the other.
  abbrev pub Apart : Text → Text → Type 0
  Apart p q = (same_or_child_path os p q ≡ false) × (same_or_child_path os q p ≡ false)

  -- What stands below one of two separate paths is separate from the other.
  pub Apart-below : (p t q : Text) → same_or_child_path os p t ≡ true → Apart p q → Apart t q
  Apart-below p t q h (a, b) = (
    elim (Bool-cases (same_or_child_path os t q)) [
      | inl k ↦ absurd (false≢true (sym a ∙ same_or_child_path_trans p t q h k))
      | inr k ↦ k
    ],
    elim (Bool-cases (same_or_child_path os q t)) [
      | inl k ↦ elim (same_or_child_path_comparable p q t h k) [
        | inl l ↦ absurd (false≢true (sym a ∙ l))
        | inr l ↦ absurd (false≢true (sym b ∙ l))
      ]
      | inr k ↦ k
    ],
  )
