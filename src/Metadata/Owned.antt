-- ===== src/Metadata/Owned.antt =====
-- The rows of the table of changes and the rules that they refer to: the foreign key of the schema in
-- common/metadata_store.cpp.
pub mod Statements
pub mod Calls
use path_overlay.Base.{
  ◌≡◌, refl, sym, ap, ◌∙◌, inl, inr, Bool, true, false, ◌&&◌, ◌||◌, not, Bool-cases, List, [], ◌∷◌,
  if◌then◌else◌, arith,
}
use mathlib.Core.Bool.{false≢true}
use path_overlay.Base.Lists.{select, All}
use path_overlay.Wide.{Text, same_text, same_text_sound, same_text_refl}
use path_overlay.Rules.{OverlayRule}
use path_overlay.Metadata.Sql.{
  ChangeRow, Tables, has_id, update_id, upsert_rule_row, is_change_key, has_change, update_change,
  upsert_change_row, delete_rule_rows, cascade_delete_rule,
}

abbrev pub rule_key : OverlayRule → Text
rule_key rule = rule.id

-- The rule of the row is in the table of rules.
abbrev pub HasOwner : List OverlayRule → ChangeRow → Type 0
HasOwner rules row = has_id rule_key row.rule_id rules ≡ true

abbrev pub IsOwned : Tables → Type 0
IsOwned t = All (HasOwner t.rules) t.changes

module _ {A : Type 0} where
  pub All-map : {P Q : A → Type 0} (xs : List A) → ((x : A) → P x → Q x) → All P xs → All Q xs
  All-map [] f h = tt
  All-map (x ∷ xs) f (h, rest) = (f x h, All-map xs f rest)

  pub All-select :
      {P Q : A → Type 0} (p : A → Bool) (xs : List A)
      → ((x : A) → p x ≡ true → P x → Q x)
      → All P xs
      → All Q (select p xs)
  unfolding select
  All-select p [] f h = tt
  All-select p (x ∷ xs) f (h, rest) = elim (Bool-cases (p x)) [
    | inl keep ↦ rw (keep) (f x keep h, All-select p xs f rest)
    | inr drop ↦ rw (drop) (All-select p xs f rest)
  ]

pub has_id-upsert_rule_row :
    (key : Text) (rule : OverlayRule) (rules : List OverlayRule)
    → has_id rule_key key rules ≡ true
    → has_id rule_key key (upsert_rule_row rule rules) ≡ true
unfolding has_id upsert_rule_row
has_id-upsert_rule_row key rule [] h = cc
has_id-upsert_rule_row key rule (row ∷ rows) h = elim (Bool-cases (same_text row.id rule.id)) [
  | inl same ↦ rw (same) (rw (same_text_sound row.id rule.id same) at h)
  | inr other ↦ rw (other) (ground (arith, has_id-upsert_rule_row key rule rows))
]

pub has_id-update_id :
    (key id : Text) (f : OverlayRule → OverlayRule) (rules : List OverlayRule)
    → ((rule : OverlayRule) → (f rule).id ≡ rule.id)
    → has_id rule_key key (update_id rule_key id f rules) ≡ has_id rule_key key rules
unfolding has_id update_id
has_id-update_id key id f [] keeps = refl
has_id-update_id key id f (row ∷ rows) keeps = elim (Bool-cases (same_text row.id id)) [
  | inl same ↦ rw (same, keeps row, has_id-update_id key id f rows keeps) refl
  | inr other ↦ rw (other, has_id-update_id key id f rows keeps) refl
]

-- The rules but one, as `DeleteRule` leaves them.
pub has_id-delete :
    (key id : Text) (rules : List OverlayRule)
    → same_text key id ≡ false
    → has_id rule_key key rules ≡ true
    → has_id rule_key key (select (λ (row : OverlayRule). not (same_text row.id id)) rules) ≡ true
unfolding has_id select
has_id-delete key id [] other h = cc
has_id-delete key id (row ∷ rows) other h = elim (Bool-cases (same_text row.id id)) [
  | inl same ↦ rw (same) (has_id-delete key id rows other (behind row rows same h))
  | inr apart ↦ rw (apart) (ground (arith, has_id-delete key id rows other))
]
  where
    behind :
        (row : OverlayRule) (rows : List OverlayRule)
        → same_text row.id id ≡ true
        → (same_text row.id key || has_id rule_key key rows) ≡ true
        → has_id rule_key key rows ≡ true
    behind row rows same h = elim (Bool-cases (same_text row.id key)) [
      | inr miss ↦ ground arith
      | inl hit ↦
          let equal : key ≡ id =
            sym (same_text_sound row.id key hit) ∙ same_text_sound row.id id same in
          absurd (false≢true (sym other ∙ (rw (equal) (same_text_refl id))))
    ]

-- A row with a key has an owner if the rows have.
pub has_change-HasOwner :
    (rules : List OverlayRule) (rule_id path : Text) (rows : List ChangeRow)
    → All (HasOwner rules) rows
    → has_change rule_id path rows ≡ true
    → has_id rule_key rule_id rules ≡ true
unfolding has_change is_change_key
has_change-HasOwner rules rule_id path [] owned h = cc
has_change-HasOwner rules rule_id path (row ∷ rows) (first, owned) h =
    elim (Bool-cases (same_text row.rule_id rule_id)) [
      | inl same ↦ rw (same_text_sound row.rule_id rule_id same) at first
      | inr other ↦ has_change-HasOwner rules rule_id path rows owned (ground arith)
    ]

pub upsert_change_row-HasOwner :
    (rules : List OverlayRule) (row : ChangeRow) (rows : List ChangeRow)
    → HasOwner rules row
    → All (HasOwner rules) rows
    → All (HasOwner rules) (upsert_change_row row rows)
unfolding upsert_change_row update_change
upsert_change_row-HasOwner rules row [] h owned = (h, tt)
upsert_change_row-HasOwner rules row (old ∷ rows) h (first, owned) =
    elim (Bool-cases (is_change_key row.rule_id row.real_path old)) [
      | inl same ↦ rw (same) (first, owned)
      | inr other ↦ rw (other) (first, upsert_change_row-HasOwner rules row rows h owned)
    ]
