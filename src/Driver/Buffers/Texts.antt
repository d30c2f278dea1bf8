-- ===== src/Driver/Buffers/Texts.antt =====
-- The texts of the arrays that driver/PathOverlayFlt/Driver.c copies.
use path_overlay.Base.{
  ℕ, zero, suc, ◌<◌, ◌≡◌, refl, false, inl, inr, Bool-cases, [], ◌∷◌, ◌++◌, length, take, leb, ◌==◌,
  arith,
}
use path_overlay.Base.Lists.{All}
use path_overlay.Wide.{Text}
use path_overlay.Driver.Buffers.{Buffer, zeros, text_of, chars_to_copy, copy_null_terminated}

-- No character of the text is a zero.
abbrev pub HasNoZero : Text → Type 0
HasNoZero text = All (λ ch. (ch == 0) ≡ false) text

pub length-zeros : (n : ℕ) → length (zeros n) ≡ n
unfolding zeros
length-zeros zero = refl
length-zeros (suc n) = omega (arith, length-zeros n)

pub text_of-append :
    (text : Text) (rest : Buffer) → HasNoZero text → text_of (text ++ (0 ∷ rest)) ≡ text
unfolding text_of
text_of-append [] rest h = refl
text_of-append (ch ∷ text) rest (one, more) = rw (one, text_of-append text rest more) refl

pub take-HasNoZero : (n : ℕ) (text : Text) → HasNoZero text → HasNoZero (take n text)
take-HasNoZero zero text h = tt
take-HasNoZero (suc n) [] h = tt
take-HasNoZero (suc n) (ch ∷ text) (one, more) = (one, take-HasNoZero n text more)

-- The text of an array that took a copy of `count` characters and a zero.
pub text_of-copy_null_terminated :
    (chars count : ℕ) (source : Text)
    → count < chars
    → HasNoZero source
    → text_of (copy_null_terminated (zeros chars) source count) ≡ take count source
unfolding copy_null_terminated chars_to_copy
text_of-copy_null_terminated chars count source l h =
    rw (length-zeros chars, not_empty chars count l, has_room chars count l)
      (text_of-append (take count source) _ (take-HasNoZero count source h))
  where
    not_empty : (n k : ℕ) → k < n → (n == 0) ≡ false
    not_empty n k l = ground arith

    has_room : (n k : ℕ) → k < n → leb n k ≡ false
    has_room n k l = ground arith

pub text_of-HasNoZero : (buffer : Buffer) → HasNoZero (text_of buffer)
unfolding text_of
text_of-HasNoZero [] = tt
text_of-HasNoZero (ch ∷ rest) = elim (Bool-cases (ch == 0)) [
  | inl end ↦ rw (end) tt
  | inr more ↦ rw (more) (more, text_of-HasNoZero rest)
]
