-- ===== src/Rules/Shadow.antt =====
-- Where the mapped paths of `MapRealPathToShadowPath` in common/path_overlay_common.cpp lie.
use path_overlay.Base.{ℕ, ◌≡◌, refl, sym, ◌∙◌, ◌⊎◌, inl, inr, true, false, [], ◌∷◌, ◌++◌, reverse}
use path_overlay.Base.{map, arith, Bool-cases, ◌==◌, not, ◌&&◌}
use mathlib.Core.List.{
  append_assoc, append-nil, reverse-append, reverse-cons, reverse-reverse, map-append,
}
use path_overlay.Wide.{Text, wide, backslash, is_empty, colon}
use path_overlay.Os.{Os}
use path_overlay.Paths.{
  is_slash, ends_with_slash, join_path, to_lower, trim_trailing_slashes, same_or_child_path,
}
use path_overlay.Paths.Trim.{
  ends_with_slash-snoc, trim_trailing_slashes_keeps, trim_trailing_slashes-append,
  trim_trailing_slashes-snoc,
}
use path_overlay.Paths.Child.{Below-same_or_child_path, same_or_child_path_refl}
use path_overlay.Rules.{OverlayRule, store_root, shadow_path}
use path_overlay.Overlay.FsPath.{drop_separators, drop_file_name, parent_path}

-- A store as `NormalizePath` leaves it, unless it is the root of a drive: not empty, and with no
-- separator at its end.
pub record IsPlainStore (store : Text) : Type 0 where
  pub nonempty : is_empty store ≡ false
  pub no_separator : ends_with_slash store ≡ false

-- The runtime's `towlower` leaves the backslash alone.
pub record KeepsBackslash (os : Os) : Type 0 where
  pub lower_backslash : os.towlower backslash ≡ backslash

-- `store`, a backslash, and on from a code unit that is no separator.
abbrev pub Inside : Text → Text → Type 0
Inside store path =
    (x : ℕ) × (s : Text) × (is_slash x ≡ false) × (path ≡ store ++ (backslash ∷ x ∷ s))

abbrev drive_tail : Text
drive_tail = b'r' ∷ b'i' ∷ b'v' ∷ b'e' ∷ []

join_path-Inside :
    (store r : Text)
    → IsPlainStore store
    → Inside store (join_path (join_path store (wide "drive")) r)
unfolding join_path wide
join_path-Inside [] r plain = cc (plain.nonempty)
join_path-Inside (c ∷ store) [] plain = (b'd', drive_tail, refl, rw plain.no_separator)
join_path-Inside (c ∷ store) (d ∷ r) plain =
    let left : Text = c ∷ (store ++ (backslash ∷ b'd' ∷ drive_tail)) in
    rw plain.no_separator (elim (Bool-cases (ends_with_slash left)) [
      | inl ends ↦ (
        b'd',
        drive_tail ++ (d ∷ r),
        refl,
        rw ends (append_assoc (c ∷ store) (backslash ∷ b'd' ∷ drive_tail) (d ∷ r)),
      )
      | inr plain_end ↦ (
        b'd',
        drive_tail ++ (backslash ∷ d ∷ r),
        refl,
        rw plain_end (append_assoc (c ∷ store) (backslash ∷ b'd' ∷ drive_tail) (backslash ∷ d ∷ r)),
      )
    ])

module _ (os : Os) (keeps : KeepsBackslash os) where
  -- A path inside a plain store is one that the store contains.
  pub Inside-same_or_child_path :
      (store path : Text)
      → IsPlainStore store
      → Inside store path
      → same_or_child_path os store path ≡ true
  unfolding to_lower
  Inside-same_or_child_path store path plain (x, s, px, e) =
      let (s', f) = trim_trailing_slashes-append x px (store ++ (backslash ∷ [])) s in
      let trimmed : trim_trailing_slashes path ≡ store ++ (backslash ∷ x ∷ s') =
        (rw (e, ← append_assoc store (backslash ∷ []) (x ∷ s), f)
          (append_assoc store (backslash ∷ []) (x ∷ s'))) in
      Below-same_or_child_path os store path (
        map os.towlower (backslash ∷ x ∷ s'),
        rw (trimmed, trim_trailing_slashes_keeps store plain.no_separator)
            (map-append os.towlower store (backslash ∷ x ∷ s')),
        rw keeps.lower_backslash,
      )

-- The mapped path lies inside the store.
pub shadow_path-Inside :
    (os : Os) (rule : OverlayRule) (real_path : Text)
    → IsPlainStore (store_root os rule)
    → Inside (store_root os rule) (shadow_path os rule real_path)
unfolding shadow_path
shadow_path-Inside os rule real_path plain = join_path-Inside _ _ plain

-- `parent_path` on the reversed text, for a path inside the reversed `y`.
module _ (x : ℕ) (plain : is_slash x ≡ false) where
  drop_separators-append :
      (r z : Text) → (r' : Text) × (drop_separators (r ++ (x ∷ z)) ≡ r' ++ (x ∷ z))
  unfolding drop_separators
  drop_separators-append [] [] = ([], refl)
  drop_separators-append [] (d ∷ z) = ([], ground arith)
  drop_separators-append (c ∷ []) z = elim (Bool-cases (is_slash c && not (x == colon))) [
    | inl drops ↦ let (r', e) = drop_separators-append [] z in (r', rw drops e)
    | inr stays ↦ (c ∷ [], rw stays)
  ]
  drop_separators-append (c ∷ d ∷ r) z = elim (Bool-cases (is_slash c && not (d == colon))) [
    | inl drops ↦ let (r', e) = drop_separators-append (d ∷ r) z in (r', rw drops e)
    | inr stays ↦ (c ∷ d ∷ r, rw stays)
  ]

  parent_reversed :
      (r z : Text)
      → ((r' : Text) × (drop_separators (drop_file_name (r ++ (x ∷ backslash ∷ z)))
            ≡ r' ++ (x ∷ backslash ∷ z)))
        ⊎ (drop_separators (drop_file_name (r ++ (x ∷ backslash ∷ z)))
            ≡ drop_separators (backslash ∷ z))
  unfolding drop_file_name
  parent_reversed [] z = inr (rw plain)
  parent_reversed (c ∷ r) z = elim (Bool-cases (is_slash c)) [
    | inl ends ↦ rw ends (inl (drop_separators-append (c ∷ r) (backslash ∷ z)))
    | inr goes_on ↦ rw goes_on (parent_reversed r z)
  ]

-- A path with no separator at its end keeps its end, in reverse.
drop_separators_plain :
    (y : Text)
    → ends_with_slash (reverse y) ≡ false
    → (drop_separators y ≡ y)
      × ((drop_separators (backslash ∷ y) ≡ y) ⊎ (drop_separators (backslash ∷ y) ≡ backslash ∷ y))
unfolding drop_separators
drop_separators_plain [] h = (refl, inr refl)
drop_separators_plain (d ∷ y) h =
    let plain : is_slash d ≡ false =
      sym (ends_with_slash-snoc (reverse y) d) ∙ (rw reverse-cons at h) in
    let same = drop_plain d y plain in
    (
      same,
      elim (Bool-cases (d == colon)) [
        | inl drive ↦ inr (rw drive)
        | inr other ↦ inl (rw other same)
      ],
    )
  where
    drop_plain : (d : ℕ) (y : Text) → is_slash d ≡ false → drop_separators (d ∷ y) ≡ d ∷ y
    drop_plain d [] p = refl
    drop_plain d (e ∷ y) p = rw p

module _ (os : Os) (keeps : KeepsBackslash os) where
  -- The store followed by one backslash is contained in the store.
  store_backslash :
      (store : Text)
      → IsPlainStore store
      → same_or_child_path os store (store ++ (backslash ∷ [])) ≡ true
  unfolding to_lower
  store_backslash store plain =
      let keep = trim_trailing_slashes_keeps store plain.no_separator in
      elim (trim_trailing_slashes-snoc (reverse store) (rw reverse-reverse plain.no_separator)) [
        | inl cut ↦
            Below-same_or_child_path os store _
              ([], rw (rw reverse-reverse at cut, keep) (sym (append-nil _)), tt)
        | inr stays ↦ Below-same_or_child_path os store _ (
          map os.towlower (backslash ∷ []),
          rw (rw reverse-reverse at stays, keep) (map-append os.towlower store (backslash ∷ [])),
          rw keeps.lower_backslash,
        )
      ]

  -- The parent of a path inside a plain store is contained in the store.
  pub parent_path-child :
      (store path : Text)
      → IsPlainStore store
      → Inside store path
      → same_or_child_path os store (parent_path path) ≡ true
  unfolding parent_path
  parent_path-child store path plain (x, s, px, e) =
      let (whole, cut) =
        drop_separators_plain (reverse store) (rw reverse-reverse plain.no_separator) in
      let reversed : reverse path ≡ reverse s ++ (x ∷ backslash ∷ reverse store) =
        rw e (simp (reverse-append, reverse-cons, append_assoc)) in
      rw reversed (elim (parent_reversed x px (reverse s) (reverse store)) [
        | inl (r, f) ↦ rw f (
            Inside-same_or_child_path os keeps store _ plain (
              x,
              reverse r,
              px,
              simp (reverse-append, reverse-cons, reverse-reverse, append_assoc),
            ))
        | inr f ↦ rw f (elim cut [
          | inl g ↦ rw (g, reverse-reverse) (same_or_child_path_refl os store)
          | inr g ↦ rw (g, reverse-cons, reverse-reverse) (store_backslash store plain)
        ])
      ])
