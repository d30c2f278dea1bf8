-- ===== src/Driver/Cache/Valid.antt =====
-- What the messages of the service leave in the rule cache of driver/PathOverlayFlt/Driver.c.
use path_overlay.Base.{
  ℕ, zero, suc, ◌+◌, ◌-◌, ◌≤◌, ◌<◌, ◌≡◌, refl, sym, subst, ◌∙◌, false, ◌||◌, not, inl, inr,
  Bool-cases, Option, none, some, List, [], ◌∷◌, ◌++◌, length, length-append, take, drop, reverse,
  leb, ◌==◌, arith,
}
use mathlib.Core.List.{reverse-reverse}
use path_overlay.Base.Lists.{All}
use path_overlay.Service.Request.{protocol_version, max_path_chars}
use path_overlay.Wide.{Text, backslash}
use path_overlay.Driver.Kernel.{RuleEntry, RuleCache, DriverState}
use path_overlay.Driver.Buffers.{
  Buffer, zeros, null_terminated_length, text_of, chars_to_copy, copy_null_terminated,
  trim_trailing_slashes, first_char,
}
use path_overlay.Driver.Buffers.Texts.{length-zeros}
use path_overlay.Driver.Buffers.Trimmed.{
  text_of-trim_trailing_slashes, length-trim_trailing_slashes, length-text_of-trim,
  drop_slashes-first, drop_slashes,
}
use path_overlay.Driver.Cache.{
  max_rule_id_chars, max_driver_rules, RuleMessage, no_rules, copy_field, entry_of, set_rule,
  run_command, driver_message,
}

-- The array has its size, and a zero in it.
abbrev pub IsTerminated : ℕ → Buffer → Type 0
IsTerminated chars buffer = (length buffer ≡ chars) × (length (text_of buffer) < chars)

-- The path of the array ends in no backslash.
abbrev pub IsTrimmed : Buffer → Type 0
IsTrimmed buffer = (first_char (reverse (text_of buffer)) == backslash) ≡ false

pub record IsEntry (entry : RuleEntry) : Type 0 where
  pub rule_id : IsTerminated max_rule_id_chars entry.rule_id
  pub source : IsTerminated max_path_chars entry.source_nt_path × IsTrimmed entry.source_nt_path
  pub source_alias :
      IsTerminated max_path_chars entry.source_alias_nt_path × IsTrimmed entry.source_alias_nt_path
  pub store : IsTerminated max_path_chars entry.store_nt_path × IsTrimmed entry.store_nt_path

pub record IsValid (cache : RuleCache) : Type 0 where
  pub bounded : length cache.rules ≤ max_driver_rules
  pub entries : All IsEntry cache.rules

null_terminated_length-le : (buffer : Buffer) → null_terminated_length buffer ≤ length buffer
unfolding null_terminated_length
null_terminated_length-le [] = omega arith
null_terminated_length-le (ch ∷ rest) = ground (arith, null_terminated_length-le rest)

length-take_le : (n : ℕ) (xs : Buffer) → n ≤ length xs → length (take n xs) ≡ n
length-take_le zero xs h = refl
length-take_le (suc n) [] h = absurd (omega arith)
length-take_le (suc n) (x ∷ xs) h = omega (arith, length-take_le n xs)

length-drop : (n : ℕ) (xs : Buffer) → length (drop n xs) ≡ length xs - n
length-drop zero xs = omega arith
length-drop (suc n) [] = omega arith
length-drop (suc n) (x ∷ xs) = omega (arith, length-drop n xs)

-- The text ends at the first zero at the latest.
text_of-le : (xs : Text) (rest : Buffer) → length (text_of (xs ++ (0 ∷ rest))) ≤ length xs
unfolding text_of
text_of-le [] rest = omega arith
text_of-le (ch ∷ xs) rest = ground (arith, text_of-le xs rest)

chars_to_copy-bounds :
    (chars count : ℕ)
    → 0 < chars
    → (chars_to_copy chars count < chars) × (chars_to_copy chars count ≤ count)
unfolding chars_to_copy
chars_to_copy-bounds chars count p = ground arith

copied-IsTerminated :
    (chars count : ℕ) (source : Buffer)
    → count < chars
    → count ≤ length source
    → IsTerminated chars (take count source ++ (0 ∷ drop (count + 1) (zeros chars)))
copied-IsTerminated chars count source l m =
    let tail = drop (count + 1) (zeros chars) in
    (
      omega (
        arith,
        length-append (take count source) (0 ∷ tail),
        length-take_le count source m,
        length-drop (count + 1) (zeros chars),
        length-zeros chars,
      ),
      omega (arith, text_of-le (take count source) tail, length-take_le count source m),
    )

-- A copy that is cut to its array has a zero in it.
copy_field-IsTerminated :
    (chars : ℕ) (source : Buffer) → 0 < chars → IsTerminated chars (copy_field chars source)
unfolding copy_field copy_null_terminated
copy_field-IsTerminated chars source p =
    let (l, m) = chars_to_copy-bounds chars (null_terminated_length source) p in
    rw (length-zeros chars, some_room chars p)
      (copied-IsTerminated chars _ source l (omega (arith, null_terminated_length-le source)))
  where
    some_room : (n : ℕ) → 0 < n → (n == 0) ≡ false
    some_room n p = ground arith

trim-IsTrimmed :
    (chars : ℕ) (buffer : Buffer)
    → IsTerminated chars buffer
    → IsTerminated chars (trim_trailing_slashes buffer) × IsTrimmed (trim_trailing_slashes buffer)
trim-IsTrimmed chars buffer (l, m) = (
  (length-trim_trailing_slashes buffer ∙ l, omega (arith, length-text_of-trim buffer)),
  subst (λ text. (first_char (reverse text) == backslash) ≡ false)
      (sym (text_of-trim_trailing_slashes buffer))
      (subst (λ text. (first_char text == backslash) ≡ false)
        (sym (reverse-reverse (drop_slashes (reverse (text_of buffer)))))
        (drop_slashes-first (reverse (text_of buffer)))),
)

entry_of-IsEntry : (message : RuleMessage) → IsEntry (entry_of message)
unfolding entry_of
entry_of-IsEntry message = record {
  rule_id = copy_field-IsTerminated max_rule_id_chars message.rule_id (omega arith);
  source = path message.source_nt_path;
  source_alias = path message.source_alias_nt_path;
  store = path message.store_nt_path;
}
  where
    path :
        (buffer : Buffer)
        → IsTerminated max_path_chars (trim_trailing_slashes (copy_field max_path_chars buffer))
          × IsTrimmed (trim_trailing_slashes (copy_field max_path_chars buffer))
    path buffer =
        trim-IsTrimmed max_path_chars _
          (copy_field-IsTerminated max_path_chars buffer (omega arith))

All-snoc :
    (P : RuleEntry → Type 0) (xs : List RuleEntry) {x : RuleEntry}
    → All P xs
    → P x
    → All P (xs ++ (x ∷ []))
All-snoc P [] h k = (k, tt)
All-snoc P (y ∷ xs) (one, more) k = (one, All-snoc P xs more k)

pub no_rules-IsValid : IsValid no_rules
no_rules-IsValid = record { bounded = omega arith; entries = tt }

-- A status, with a cache that is valid.
record LeavesValid (result : ℕ × RuleCache) : Type 0 where
  valid : IsValid result.1

set_rule-LeavesValid :
    (message : RuleMessage) (cache : RuleCache)
    → IsValid cache
    → LeavesValid (set_rule message cache)
unfolding set_rule
set_rule-LeavesValid message cache v = elim (Bool-cases (message.enabled == 0)) [
  | inl off ↦ rw (off) (record { valid = v })
  | inr on ↦
      elim (Bool-cases (
        first_char message.rule_id == 0
        || (first_char message.source_nt_path == 0 || first_char message.store_nt_path == 0))) [
          | inl empty ↦ rw (on, empty) (record { valid = v })
          | inr named ↦ elim (Bool-cases (leb max_driver_rules (length cache.rules))) [
            | inl full ↦ rw (on, named, full) (record { valid = v })
            | inr room ↦ rw (on, named, room) (record { valid = added room })
          ]
        ]
]
  where
    leb-lt : (m n : ℕ) → leb m n ≡ false → n < m
    leb-lt m n h = ground arith

    added :
        leb max_driver_rules (length cache.rules) ≡ false
        → IsValid (record {
          service_process_id = message.service_process_id;
          rules = cache.rules ++ (entry_of message ∷ []);
        })
    added room = record {
      bounded = omega (
        arith,
        length-append cache.rules (entry_of message ∷ []),
        leb-lt max_driver_rules (length cache.rules) room,
      );
      entries = All-snoc IsEntry cache.rules v.entries (entry_of-IsEntry message);
    }

run_command-LeavesValid :
    (message : RuleMessage) (cache : RuleCache)
    → IsValid cache
    → LeavesValid (run_command message cache)
unfolding run_command
run_command-LeavesValid message cache v = elim (Bool-cases (message.command == 1)) [
  | inl clear ↦ rw (clear) (record { valid = no_rules-IsValid })
  | inr other ↦ elim (Bool-cases (message.command == 2)) [
    | inl set ↦ rw (other, set) (set_rule-LeavesValid message cache v)
    | inr unknown ↦ rw (other, unknown) (record { valid = v })
  ]
]

-- A status, with a state that differs from `s` by a cache that is valid if that of `s` is.
pub record ChangesCache {S : Type 0} (s : DriverState S) (result : ℕ × DriverState S) : Type 0 where
  pub cache : RuleCache
  pub same : result.1 ≡ record s { cache = cache }
  pub valid : IsValid s.cache → IsValid cache

pub driver_message-ChangesCache :
    {S : Type 0} (message : Option RuleMessage) (s : DriverState S)
    → ChangesCache s (driver_message message s)
unfolding driver_message
driver_message-ChangesCache none s = record { cache = s.cache; same = refl; valid = λ v. v }
driver_message-ChangesCache (some message) s =
    elim (Bool-cases (not (message.version == protocol_version))) [
      | inl old ↦ rw (old) (record { cache = s.cache; same = refl; valid = λ v. v })
      | inr current ↦ rw (current) (record {
        cache = (run_command message s.cache).1;
        same = refl;
        valid = λ v. (run_command-LeavesValid message s.cache v).valid;
      })
    ]
