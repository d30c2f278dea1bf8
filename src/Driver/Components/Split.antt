-- ===== src/Driver/Components/Split.antt =====
-- `PathOverlayNextPathComponent` of driver/PathOverlayFlt/Driver.c as a way to split a path.
use path_overlay.Base.{
  ℕ, zero, suc, ◌+◌, ◌-◌, ◌≤◌, ◌<◌, ◌≡◌, ◌≢◌, refl, sym, ap, subst, ◌∙◌, ◌⊎◌, inl, inr, true, false,
  Bool-cases, Option, none, some, List, [], ◌∷◌, length, take, drop, leb, ◌==◌, if◌then◌else◌,
  arith,
}
use native.Mathlib.Nat.{zero-add, suc-add}
use path_overlay.Wide.{Text, backslash}
use path_overlay.Driver.Components.{
  count_separators, count_component, PathComponent, component_text, next_path_component,
}

-- `ch` at the front of the first component.
abbrev onto_first : ℕ → List Text → List Text
onto_first ch [] = (ch ∷ []) ∷ []
onto_first ch (c ∷ cs) = (ch ∷ c) ∷ cs

-- `ch` in front of `rest`, whose components are `cs`: it begins a component, or goes on with the first.
unfoldable pub cons_char : ℕ → Text → List Text → List Text
cons_char ch [] cs = (ch ∷ []) ∷ cs
cons_char ch (next ∷ rest) cs = if next == backslash then (ch ∷ []) ∷ cs else onto_first ch cs

-- The components of a path: its parts between backslashes that are not empty.
unfoldable pub components : Text → List Text
unfolding cons_char
components [] = []
components (ch ∷ rest) =
    if ch == backslash then components rest else cons_char ch rest (components rest)

-- The text ends here, or a backslash follows.
abbrev pub IsBoundary : Text → Type 0
IsBoundary [] = Unit
IsBoundary (ch ∷ rest) = (ch == backslash) ≡ true

module _ {A : Type 0} where
  pub drop-nil : (n : ℕ) → (let none_left : List A = [] in drop n none_left ≡ none_left)
  drop-nil zero = refl
  drop-nil (suc n) = refl

  pub drop-drop : (m n : ℕ) (xs : List A) → drop n (drop m xs) ≡ drop (m + n) xs
  drop-drop zero n xs = rw zero-add
  drop-drop (suc m) n [] = drop-nil n ∙ sym (drop-nil (suc m + n))
  drop-drop (suc m) n (x ∷ xs) = rw (suc-add) (drop-drop m n xs)

  pub take-length : (xs : List A) → take (length xs) xs ≡ xs
  take-length [] = refl
  take-length (x ∷ xs) = ap (λ ys. x ∷ ys) (take-length xs)

  pub drop-length : (xs : List A) → drop (length xs) xs ≡ []
  drop-length [] = refl
  drop-length (x ∷ xs) = drop-length xs

  pub length-drop : (n : ℕ) (xs : List A) → length (drop n xs) ≡ length xs - n
  length-drop zero xs = omega arith
  length-drop (suc n) [] = omega arith
  length-drop (suc n) (x ∷ xs) = omega (arith, length-drop n xs)

-- A component is what the two loops count.
components-separators :
    (text : Text) → components (drop (count_separators text) text) ≡ components text
unfolding components count_separators
components-separators [] = refl
components-separators (ch ∷ rest) = ground (arith, components-separators rest)

components-component :
    (text : Text)
    → 0 < count_component text
    → components text
      ≡ take (count_component text) text ∷ components (drop (count_component text) text)
unfolding components cons_char count_component
components-component [] h = absurd (omega arith)
components-component (ch ∷ []) h = ground arith
components-component (ch ∷ next ∷ rest) h = elim (Bool-cases (ch == backslash)) [
  | inl stop ↦ ground arith
  | inr more ↦ elim (Bool-cases (next == backslash)) [
    | inl last ↦ rw (more, last) (rw (last) refl)
    | inr on ↦
        let first : components (next ∷ rest)
            ≡ take (count_component (next ∷ rest)) (next ∷ rest)
              ∷ components (drop (count_component (next ∷ rest)) (next ∷ rest)) =
          components-component (next ∷ rest) (rw (on) (omega arith)) in
        rw (more, on) (ap (onto_first ch) (rw (on) at first))
  ]
]

drop-component-IsBoundary : (text : Text) → IsBoundary (drop (count_component text) text)
unfolding count_component
drop-component-IsBoundary [] = tt
drop-component-IsBoundary (ch ∷ rest) = elim (Bool-cases (ch == backslash)) [
  | inl stop ↦ rw (stop) stop
  | inr more ↦ rw (more) (drop-component-IsBoundary rest)
]

-- Behind the separators the text ends or a component begins.
separators-component :
    (text : Text)
    → (drop (count_separators text) text ≡ [])
      ⊎ (0 < count_component (drop (count_separators text) text))
unfolding count_separators count_component
separators-component [] = inl refl
separators-component (ch ∷ rest) = elim (Bool-cases (ch == backslash)) [
  | inl skip ↦ rw (skip) (separators-component rest)
  | inr stop ↦ rw (stop) (inr (rw (stop) (omega arith)))
]

abbrev pub NextIs : Text → ℕ → Option PathComponent → Type 0
NextIs value offset none = components (drop offset value) ≡ []
NextIs value offset (some c) =
    (components (drop offset value) ≡ component_text value c ∷ components (drop c.offset value))
    × IsBoundary (drop c.offset value)
    × (offset < c.offset)
    × (c.offset ≤ length value)

count_component-le : (text : Text) → count_component text ≤ length text
unfolding count_component
count_component-le [] = omega arith
count_component-le (ch ∷ rest) = ground (arith, count_component-le rest)

pub no_components : (text : Text) → length text ≡ 0 → components text ≡ []
unfolding components
no_components [] h = refl
no_components (ch ∷ rest) h = absurd (omega arith)

-- `PathOverlayNextPathComponent` finds the first component behind the offset, and fails if there is none.
pub next_path_component_lem :
    (value : Text) (offset : ℕ) → NextIs value offset (next_path_component value offset)
unfolding next_path_component
next_path_component_lem value offset =
    let skipped = count_separators (drop offset value) in
    let start = offset + skipped in
    let joined : drop skipped (drop offset value) ≡ drop start value =
      drop-drop offset skipped value in
    let same : components (drop start value) ≡ components (drop offset value) =
      ap components (sym joined) ∙ components-separators (drop offset value) in
    let left : length (drop start value) ≡ length value - start = length-drop start value in
    elim (Bool-cases (leb (length value) start)) [
      | inl end ↦ rw (end) (sym same ∙ no_components (drop start value) (ground (arith, left)))
      | inr more ↦
          let positive : 0 < count_component (drop start value) =
            elim (separators-component (drop offset value)) [
              | inl nothing ↦
                  absurd
                    (some_left _ _ more (omega (arith, left, ap length (sym joined ∙ nothing))))
              | inr found ↦ subst (λ text. 0 < count_component text) joined found
            ] in
          let behind : drop (count_component (drop start value)) (drop start value)
              ≡ drop (start + count_component (drop start value)) value =
            drop-drop start _ value in
          rw (more) (
            sym same
                ∙ (components-component _ positive
                    ∙ ap
                        (λ text.
                          take (count_component (drop start value)) (drop start value)
                          ∷ components text)
                        behind),
            subst IsBoundary behind (drop-component-IsBoundary (drop start value)),
            omega arith,
            within _ _ _ more left (count_component-le (drop start value)),
          )
    ]
  where
    some_left : (n m : ℕ) → leb n m ≡ false → n - m ≢ 0
    some_left n m h e = ground arith

    within : (n m k : ℕ) {l : ℕ} → leb n m ≡ false → l ≡ n - m → k ≤ l → m + k ≤ n
    within n m k h e le = ground arith
