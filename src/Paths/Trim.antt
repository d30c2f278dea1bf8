-- ===== src/Paths/Trim.antt =====
-- What `TrimTrailingSlashes` of common/path_overlay_common.cpp leaves of a path.
use path_overlay.Base.{ℕ, ◌≡◌, refl, sym, ◌∙◌, ◌⊎◌, false, some, [], ◌∷◌, ◌++◌, reverse, arith}
use path_overlay.Base.{Bool-cases, ltb, length, ◌&&◌, inl, inr}
use mathlib.Core.List.{append_assoc, reverse-append, reverse-cons, reverse-reverse}
use path_overlay.Wide.{Text, back}
use path_overlay.Paths.{is_slash, ends_with_slash, trim_reversed, trim_trailing_slashes}

back-snoc : (s : Text) (c : ℕ) → back (s ++ (c ∷ [])) ≡ some c
unfolding back
back-snoc [] c = refl
back-snoc (d ∷ []) c = refl
back-snoc (d ∷ e ∷ s) c = back-snoc (e ∷ s) c

pub ends_with_slash-snoc : (s : Text) (c : ℕ) → ends_with_slash (s ++ (c ∷ [])) ≡ is_slash c
unfolding ends_with_slash
ends_with_slash-snoc s c = rw (back-snoc s c, ends_with_slash)

trim_reversed_keeps : (r : Text) → ends_with_slash (reverse r) ≡ false → trim_reversed r ≡ r
unfolding trim_reversed
trim_reversed_keeps [] h = refl
trim_reversed_keeps (c ∷ r) h =
    let plain : is_slash c ≡ false =
      sym (ends_with_slash-snoc (reverse r) c) ∙ (rw reverse-cons at h) in
    ground arith

-- A path with no separator at its end is left alone.
pub trim_trailing_slashes_keeps :
    (p : Text) → ends_with_slash p ≡ false → trim_trailing_slashes p ≡ p
unfolding trim_trailing_slashes
trim_trailing_slashes_keeps p h =
    rw (trim_reversed_keeps (reverse p) (rw reverse-reverse h)) (reverse-reverse p)

module _ (x : ℕ) (plain : is_slash x ≡ false) where
  trim_reversed-append : (r y : Text) → (r' : Text) × (trim_reversed (r ++ (x ∷ y)) ≡ r' ++ (x ∷ y))
  unfolding trim_reversed
  trim_reversed-append [] y = ([], ground arith)
  trim_reversed-append (c ∷ r) y =
      elim (Bool-cases (ltb 3 (length ((c ∷ r) ++ (x ∷ y))) && is_slash c)) [
        | inl drops ↦ let (r', e) = trim_reversed-append r y in (r', rw drops e)
        | inr stays ↦ (c ∷ r, rw stays)
      ]

  -- Nothing in front of a code unit that is no separator is cut off.
  pub trim_trailing_slashes-append :
      (a s : Text) → (s' : Text) × (trim_trailing_slashes (a ++ (x ∷ s)) ≡ a ++ (x ∷ s'))
  unfolding trim_trailing_slashes
  trim_trailing_slashes-append a s =
      let (r, e) = trim_reversed-append (reverse s) (reverse a) in
      (
        reverse r,
        rw
            (
              reverse-append a (x ∷ s),
              reverse-cons x s,
              append_assoc (reverse s),
              e,
              reverse-append r,
              reverse-cons x (reverse a),
              reverse-reverse a,
            )
            (append_assoc a (x ∷ []) (reverse r)),
      )

module _ (y : Text) (plain : ends_with_slash (reverse y) ≡ false) where
  -- One separator behind a path with none is cut off, or stays behind a drive.
  pub trim_trailing_slashes-snoc :
      (trim_trailing_slashes (reverse y ++ (92 ∷ [])) ≡ reverse y)
      ⊎ (trim_trailing_slashes (reverse y ++ (92 ∷ [])) ≡ reverse y ++ (92 ∷ []))
  unfolding trim_trailing_slashes trim_reversed
  trim_trailing_slashes-snoc =
      let same : trim_reversed y ≡ y = trim_reversed_keeps y plain in
      elim (Bool-cases (ltb 3 (length (92 ∷ y)))) [
        | inl long ↦ inl (rw (reverse-append (reverse y), reverse-reverse, long, same))
        | inr short ↦ inr (rw (reverse-append (reverse y), reverse-reverse, short, reverse-cons))
      ]
