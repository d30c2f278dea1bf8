-- ===== src/Driver/Buffers/Trimmed.antt =====
-- `PathOverlayTrimTrailingSlashes` of driver/PathOverlayFlt/Driver.c on the text of an array.
use path_overlay.Base.{
  ℕ, zero, suc, ◌+◌, ◌≤◌, ◌≡◌, refl, sym, ap, subst, ◌∙◌, false, inl, inr, Bool-cases, [], ◌∷◌,
  ◌++◌, length, length-append, take, drop, reverse, ◌==◌, if◌then◌else◌, arith,
}
use mathlib.Core.List.{append_assoc, reverse-cons, reverse-append}
use path_overlay.Base.Lists.{All}
use path_overlay.Wide.{Text, backslash}
use path_overlay.Driver.Buffers.{
  Buffer, zeros, null_terminated_length, text_of, trim_slashes_reversed, trim_trailing_slashes,
  first_char,
}
use path_overlay.Driver.Buffers.Texts.{HasNoZero, text_of-HasNoZero}

-- The characters behind the backslashes at the front.
unfoldable pub drop_slashes : Text → Text
drop_slashes [] = []
drop_slashes (ch ∷ rest) = if ch == backslash then drop_slashes rest else ch ∷ rest

unfoldable pub count_slashes : Text → ℕ
count_slashes [] = 0
count_slashes (ch ∷ rest) = if ch == backslash then suc (count_slashes rest) else 0

trim_slashes_reversed-zeros :
    (text : Text) → trim_slashes_reversed text ≡ zeros (count_slashes text) ++ drop_slashes text
unfolding trim_slashes_reversed zeros count_slashes drop_slashes
trim_slashes_reversed-zeros [] = refl
trim_slashes_reversed-zeros (ch ∷ rest) = elim (Bool-cases (ch == backslash)) [
  | inl slash ↦ rw (slash) (ap (λ xs. 0 ∷ xs) (trim_slashes_reversed-zeros rest))
  | inr other ↦ rw (other) refl
]

take-null_terminated_length :
    (buffer : Buffer) → take (null_terminated_length buffer) buffer ≡ text_of buffer
unfolding null_terminated_length text_of
take-null_terminated_length [] = refl
take-null_terminated_length (ch ∷ rest) = elim (Bool-cases (ch == 0)) [
  | inl end ↦ rw (end) refl
  | inr more ↦ rw (more) (ap (λ xs. ch ∷ xs) (take-null_terminated_length rest))
]

text_of-drop : (buffer : Buffer) → text_of (drop (null_terminated_length buffer) buffer) ≡ []
unfolding null_terminated_length text_of
text_of-drop [] = refl
text_of-drop (ch ∷ rest) = elim (Bool-cases (ch == 0)) [
  | inl end ↦ rw (end) (rw (end) refl)
  | inr more ↦ rw (more) (text_of-drop rest)
]

text_of-append_nothing :
    (text : Text) (rest : Buffer)
    → HasNoZero text
    → text_of rest ≡ []
    → text_of (text ++ rest) ≡ text
unfolding text_of
text_of-append_nothing [] rest h e = e
text_of-append_nothing (ch ∷ text) rest (one, more) e =
    rw (one, text_of-append_nothing text rest more e) refl

zeros-append : (n : ℕ) → zeros n ++ (0 ∷ []) ≡ 0 ∷ zeros n
unfolding zeros
zeros-append zero = refl
zeros-append (suc n) = ap (λ xs. 0 ∷ xs) (zeros-append n)

reverse-zeros : (n : ℕ) → reverse (zeros n) ≡ zeros n
unfolding zeros
reverse-zeros zero = refl
reverse-zeros (suc n) =
    reverse-cons 0 (zeros n) ∙ (ap (λ xs. xs ++ (0 ∷ [])) (reverse-zeros n) ∙ zeros-append n)

text_of-zeros_append : (n : ℕ) (rest : Buffer) → text_of rest ≡ [] → text_of (zeros n ++ rest) ≡ []
unfolding zeros text_of
text_of-zeros_append zero rest e = e
text_of-zeros_append (suc n) rest e = refl

module _ (P : ℕ → Type 0) where
  All-append : (xs ys : Text) → All P xs → All P ys → All P (xs ++ ys)
  All-append [] ys h k = k
  All-append (x ∷ xs) ys (one, more) k = (one, All-append xs ys more k)

  All-reverse : (xs : Text) → All P xs → All P (reverse xs)
  All-reverse [] h = tt
  All-reverse (x ∷ xs) (one, more) =
      subst (All P) (sym (reverse-cons x xs))
        (All-append (reverse xs) _ (All-reverse xs more) (one, tt))

  drop_slashes-All : (xs : Text) → All P xs → All P (drop_slashes xs)
  unfolding drop_slashes
  drop_slashes-All [] h = tt
  drop_slashes-All (x ∷ xs) (one, more) = elim (Bool-cases (x == backslash)) [
    | inl slash ↦ rw (slash) (drop_slashes-All xs more)
    | inr other ↦ rw (other) (one, more)
  ]

-- The text of a trimmed array is its text without the backslashes at the end.
pub text_of-trim_trailing_slashes :
    (value : Buffer)
    → text_of (trim_trailing_slashes value) ≡ reverse (drop_slashes (reverse (text_of value)))
unfolding trim_trailing_slashes
text_of-trim_trailing_slashes value =
    let reversed = reverse (text_of value) in
    let rest = drop (null_terminated_length value) value in
    rw (take-null_terminated_length value, trim_slashes_reversed-zeros reversed)
      (ap (λ xs. text_of (xs ++ rest))
          (reverse-append (zeros (count_slashes reversed)) (drop_slashes reversed)
            ∙ ap (λ xs. reverse (drop_slashes reversed) ++ xs)
                (reverse-zeros (count_slashes reversed)))
        ∙ (ap text_of
              (append_assoc (reverse (drop_slashes reversed)) (zeros (count_slashes reversed)) rest)
            ∙ text_of-append_nothing (reverse (drop_slashes reversed)) _
                (All-reverse _ _ (drop_slashes-All _ _ (All-reverse _ _ (text_of-HasNoZero value))))
                (text_of-zeros_append (count_slashes reversed) rest (text_of-drop value))))

length-reverse : (xs : Text) → length (reverse xs) ≡ length xs
length-reverse [] = refl
length-reverse (x ∷ xs) =
    omega
      (arith, ap length (reverse-cons x xs), length-append (reverse xs) (x ∷ []), length-reverse xs)

length-trim_slashes_reversed : (xs : Text) → length (trim_slashes_reversed xs) ≡ length xs
unfolding trim_slashes_reversed
length-trim_slashes_reversed [] = refl
length-trim_slashes_reversed (x ∷ xs) = ground (arith, length-trim_slashes_reversed xs)

length-take-drop : (n : ℕ) (xs : Text) → length (take n xs) + length (drop n xs) ≡ length xs
length-take-drop zero xs = omega arith
length-take-drop (suc n) [] = refl
length-take-drop (suc n) (x ∷ xs) = omega (arith, length-take-drop n xs)

pub length-trim_trailing_slashes :
    (value : Buffer) → length (trim_trailing_slashes value) ≡ length value
unfolding trim_trailing_slashes
length-trim_trailing_slashes value =
    let count = null_terminated_length value in
    omega (
      arith,
      length-append (reverse (trim_slashes_reversed (reverse (take count value))))
          (drop count value),
      length-reverse (trim_slashes_reversed (reverse (take count value))),
      length-trim_slashes_reversed (reverse (take count value)),
      length-reverse (take count value),
      length-take-drop count value,
    )

-- What is left begins with no backslash, and is no longer.
pub drop_slashes-first : (xs : Text) → (first_char (drop_slashes xs) == backslash) ≡ false
unfolding drop_slashes
drop_slashes-first [] = refl
drop_slashes-first (x ∷ xs) = elim (Bool-cases (x == backslash)) [
  | inl slash ↦ rw (slash) (drop_slashes-first xs)
  | inr other ↦ rw (other) other
]

length-drop_slashes : (xs : Text) → length (drop_slashes xs) ≤ length xs
unfolding drop_slashes
length-drop_slashes [] = omega arith
length-drop_slashes (x ∷ xs) = ground (arith, length-drop_slashes xs)

pub length-text_of-trim :
    (value : Buffer) → length (text_of (trim_trailing_slashes value)) ≤ length (text_of value)
length-text_of-trim value = omega (
  arith,
  ap length (text_of-trim_trailing_slashes value),
  length-reverse (drop_slashes (reverse (text_of value))),
  length-drop_slashes (reverse (text_of value)),
  length-reverse (text_of value),
)
