-- ===== src/Driver/Shadow/Paths.antt =====
-- The texts of the paths that driver/PathOverlayFlt/Driver.c puts together.
use path_overlay.Base.{
  ℕ, ◌+◌, ◌-◌, ◌*◌, ◌/◌, ◌^◌, ◌≤◌, ◌<◌, ◌≡◌, ◌≢◌, refl, sym, ap, ◌∙◌, Bool, true, false, ◌||◌, inl,
  inr, Bool-cases, List, [], ◌∷◌, ◌++◌, length, length-append, take, drop, ltb, ◌==◌, arith,
}
use path_overlay.Wide.{Text, backslash, is_empty}
use path_overlay.Driver.Status
use path_overlay.Driver.Kernel.{DriverState, Kernel}
use path_overlay.Driver.Components.{same_or_child_path}
use path_overlay.Driver.Components.Split.{IsBoundary, take-length, length-drop}
use path_overlay.Driver.Shadow.{
  built, refused, overran, max_path_bytes, add_ushort, sub_ushort, build_path, build_shadow_path,
  build_real_path_from_shadow,
}

module _ {A : Type 0} where
  take-append : (xs ys : List A) → take (length xs) (xs ++ ys) ≡ xs
  take-append [] ys = refl
  take-append (x ∷ xs) ys = ap (λ zs. x ∷ zs) (take-append xs ys)

  drop-append : (xs ys : List A) → drop (length xs) (xs ++ ys) ≡ ys
  drop-append [] ys = refl
  drop-append (x ∷ xs) ys = drop-append xs ys

  take-all : (n : ℕ) (xs : List A) → n ≡ length xs → take n xs ≡ xs
  take-all n xs e = rw (e) (take-length xs)

suffix_bytes-half : (a b : ℕ) → b ≤ a → a < 2 ^ 15 → sub_ushort (2 * a) (2 * b) / 2 ≡ a - b
suffix_bytes-half a b l h = omega arith

module _ {S : Type 0} (kernel : Kernel S) (s : DriverState S) where
  -- A path that is built is the prefix with the rest of the other path behind it, if the latter fits 16
  -- bits.
  pub build_path-built :
      (prefix path : Text) (skip : ℕ) {text : Text}
      → skip ≤ length path
      → length path < 2 ^ 15
      → build_path kernel prefix path skip (sub_ushort (2 * length path) (2 * skip)) s ≡ built text
      → text ≡ prefix ++ drop skip path
  unfolding build_path
  build_path-built prefix path skip {text} l h e =
      let all : take (sub_ushort (2 * length path) (2 * skip) / 2) (drop skip path)
          ≡ drop skip path =
        take-all _ (drop skip path)
          (suffix_bytes-half (length path) skip l h ∙ sym (length-drop skip path)) in
      sym (ap (λ rest. prefix ++ rest) (sym all) ∙ ground arith)

  -- The shadow of a path is the store with what stands behind the source.
  pub build_shadow_path-built :
      (store source real_path : Text) {shadow : Text}
      → length real_path < 2 ^ 15
      → build_shadow_path kernel store source real_path s ≡ built shadow
      → (length source ≤ length real_path) × (shadow ≡ store ++ drop (length source) real_path)
  unfolding build_shadow_path
  build_shadow_path-built store source real_path h e =
      elim (Bool-cases (ltb (2 * length real_path) (2 * length source))) [
        | inl short ↦ absurd (not_built Status.object_path_invalid (rw (short) at e))
        | inr fits ↦
            let l : length source ≤ length real_path = ground arith in
            (l, build_path-built store real_path (length source) l h (rw (fits) at e))
      ]
    where
      not_built : (status : ℕ) {text : Text} → refused status ≢ built text
      not_built status e = cc

  -- A path of a store is in the store.
  pub same_or_child_path-append :
      (store rest : Text)
      → kernel.equal_unicode_string store store ≡ true
      → is_empty store ≡ false
      → IsBoundary rest
      → same_or_child_path kernel store (store ++ rest) ≡ true
  unfolding same_or_child_path
  same_or_child_path-append store rest same some_store boundary =
      rw (some_store, fits, take-append store rest, same, drop-append store rest)
        (ends rest boundary)
    where
      fits : ltb (length (store ++ rest)) (length store) ≡ false
      fits = ground (arith, length-append store rest)

      ends :
          (text : Text)
          → IsBoundary text
          → (elim text as (λ _. Bool) [ [] ↦ true | ch ∷ _ ↦ ch == backslash ]) ≡ true
      ends [] b = refl
      ends (ch ∷ text) b = b

  build_path-append :
      (prefix start rest : Text)
      → 0 < length (prefix ++ rest)
      → length (prefix ++ rest) < 520
      → length (start ++ rest) < 2 ^ 15
      → kernel.allocate_pool (2 * length (prefix ++ rest) + 2) s ≡ true
      → build_path kernel prefix
          (start ++ rest)
          (length start)
          (sub_ushort (2 * length (start ++ rest)) (2 * length start))
          s
        ≡ built (prefix ++ rest)
  unfolding build_path
  build_path-append prefix start rest some_char fits h pool =
      let suffix : sub_ushort (2 * length (start ++ rest)) (2 * length start) ≡ 2 * length rest =
        omega (arith, length-append start rest) in
      let total : add_ushort (2 * length prefix) (2 * length rest) ≡ 2 * length (prefix ++ rest) =
        omega (arith, length-append prefix rest) in
      let copied : take (2 * length rest / 2) (drop (length start) (start ++ rest)) ≡ rest =
        rw (drop-append start rest) (take-all _ rest (omega arith)) in
      rw (suffix, total, small _ some_char fits, pool, exact, copied) refl
    where
      small : (n : ℕ) → 0 < n → n < 520 → (2 * n == 0 || ltb max_path_bytes (2 * n)) ≡ false
      small n p l = ground arith

      exact : ltb (2 * length (prefix ++ rest)) (2 * length prefix + 2 * length rest) ≡ false
      exact = ground (arith, length-append prefix rest)

  -- The real path that is built for the shadow of a path below the source is the path, if both have a
  -- character and fit a request, and the pool has room for both.
  pub build_real_path_from_shadow-build_shadow_path :
      (store source rest : Text)
      → 0 < length (store ++ rest)
      → 0 < length (source ++ rest)
      → length (store ++ rest) < 520
      → length (source ++ rest) < 520
      → kernel.allocate_pool (2 * length (store ++ rest) + 2) s ≡ true
      → kernel.allocate_pool (2 * length (source ++ rest) + 2) s ≡ true
      → (shadow : Text) × (build_shadow_path kernel store source (source ++ rest) s ≡ built shadow)
        × (build_real_path_from_shadow kernel source store shadow s ≡ built (source ++ rest))
  unfolding build_shadow_path build_real_path_from_shadow
  build_real_path_from_shadow-build_shadow_path store source rest p q l h pool pool' = (
    store ++ rest,
    rw (below) (build_path-append store source rest p l (omega arith) pool),
    build_path-append source store rest q h (omega arith) pool',
  )
    where
      below : ltb (2 * length (source ++ rest)) (2 * length source) ≡ false
      below = ground (arith, length-append source rest)

  -- The 16 bits of the length of a shadow can overflow: where the store and the rest of the path take from
  -- 65538 bytes on to what a path may have more, the length that is checked is short, and the copy goes
  -- past the end of a buffer that was allocated for it.
  pub build_shadow_path_overruns :
      (store source real_path : Text)
      → length source ≤ length real_path
      → length real_path < 2 ^ 15
      → 2 ^ 15 < length store + (length real_path - length source)
      → length store + (length real_path - length source) ≤ 2 ^ 15 + 519
      → ((n : ℕ) → kernel.allocate_pool n s ≡ true)
      → build_shadow_path kernel store source real_path s ≡ overran
  unfolding build_shadow_path build_path
  build_shadow_path_overruns store source real_path l h over less pool =
      let rest = length real_path - length source in
      let suffix : sub_ushort (2 * length real_path) (2 * length source) ≡ 2 * rest = omega arith in
      let total : add_ushort (2 * length store) (2 * rest) ≡ 2 * (length store + rest - 2 ^ 15) =
        omega arith in
      rw
        (
          below,
          suffix,
          total,
          small (length store + rest) over less,
          pool (2 * (length store + rest - 2 ^ 15) + 2),
          short (length store) rest over,
        )
        refl
    where
      below : ltb (2 * length real_path) (2 * length source) ≡ false
      below = ground arith

      small :
          (n : ℕ)
          → 2 ^ 15 < n
          → n ≤ 2 ^ 15 + 519
          → (2 * (n - 2 ^ 15) == 0 || ltb max_path_bytes (2 * (n - 2 ^ 15))) ≡ false
      small n p l = ground arith

      short : (a b : ℕ) → 2 ^ 15 < a + b → ltb (2 * (a + b - 2 ^ 15)) (2 * a + 2 * b) ≡ true
      short a b p = ground arith
