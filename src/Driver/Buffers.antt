-- ===== src/Driver/Buffers.antt =====
-- Arrays of `WCHAR` and their texts, in driver/PathOverlayFlt/Driver.c. An array is the list of all its
-- elements.
pub mod Texts
pub mod Trimmed
use path_overlay.Base.{
  ℕ, zero, suc, ◌+◌, ◌-◌, Bool, ◌&&◌, not, List, [], ◌∷◌, ◌++◌, length, take, drop, reverse, leb,
  ◌==◌, if◌then◌else◌,
}
use path_overlay.Wide.{Text, backslash}

abbrev pub Buffer : Type 0
Buffer = List ℕ

-- `RtlZeroMemory`
unfoldable pub zeros : ℕ → Buffer
zeros zero = []
zeros (suc n) = 0 ∷ zeros n

-- `PathOverlayNullTerminatedLength` of an array, from its first element on.
unfoldable pub null_terminated_length : Buffer → ℕ
null_terminated_length [] = 0
null_terminated_length (ch ∷ rest) = if ch == 0 then 0 else suc (null_terminated_length rest)

-- `RtlInitUnicodeString`: what stands before the first zero.
unfoldable pub text_of : Buffer → Text
text_of [] = []
text_of (ch ∷ rest) = if ch == 0 then [] else ch ∷ text_of rest

-- `charsToCopy` of `PathOverlayCopyNullTerminated`
unfoldable pub chars_to_copy : ℕ → ℕ → ℕ
chars_to_copy destination_chars source_chars =
    if leb destination_chars source_chars then destination_chars - 1 else source_chars

-- `PathOverlayCopyNullTerminated`: the array that the call leaves.
unfoldable pub copy_null_terminated : Buffer → Buffer → ℕ → Buffer
unfolding chars_to_copy
copy_null_terminated destination source source_chars =
    let count = chars_to_copy (length destination) source_chars in
    if length destination == 0
    then destination
    else take count source ++ (0 ∷ drop (count + 1) destination)

-- The loop of `PathOverlayTrimTrailingSlashes` on what stands before the first zero, reversed: each
-- backslash at the end becomes a zero.
unfoldable pub trim_slashes_reversed : Text → Buffer
trim_slashes_reversed [] = []
trim_slashes_reversed (ch ∷ rest) =
    if ch == backslash then 0 ∷ trim_slashes_reversed rest else ch ∷ rest

-- `PathOverlayTrimTrailingSlashes`
unfoldable pub trim_trailing_slashes : Buffer → Buffer
unfolding null_terminated_length trim_slashes_reversed
trim_trailing_slashes value =
    let count = null_terminated_length value in
    reverse (trim_slashes_reversed (reverse (take count value))) ++ drop count value

-- The first element, zero for an array that has none.
abbrev pub first_char : Buffer → ℕ
first_char [] = 0
first_char (ch ∷ rest) = ch
