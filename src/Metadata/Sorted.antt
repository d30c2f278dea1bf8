-- ===== src/Metadata/Sorted.antt =====
-- The rows that a query of common/metadata_store.cpp selects and sorts.
use path_overlay.Base.{Bool, true, Bool-cases, Option-cases, arith, inl, inr, ◌≡◌, List, [], ◌∷◌}
use path_overlay.Base.Lists.{select, Member, here, there, All}
use path_overlay.Wide.{Text}
use path_overlay.Action.{success}
use path_overlay.Metadata.Statement.{run_query}
use path_overlay.Metadata.Sql.{Engine, Sql, Tables, order_by, insert_sorted}

module _ {A : Type 0} where
  insert_sorted-here :
      (before : A → A → Bool) (x : A) (ys : List A) → Member x (insert_sorted before x ys)
  unfolding insert_sorted
  insert_sorted-here before x [] = here
  insert_sorted-here before x (y ∷ ys) = elim (Bool-cases (before x y)) [
    | inl first ↦ rw (first) here
    | inr later ↦ rw (later) (there (insert_sorted-here before x ys))
  ]

  insert_sorted-there :
      (before : A → A → Bool) (x : A) (ys : List A) {z : A}
      → Member z ys
      → Member z (insert_sorted before x ys)
  unfolding insert_sorted
  insert_sorted-there before x [] m = elim m [ ]
  insert_sorted-there before x (y ∷ ys) here = elim (Bool-cases (before x y)) [
    | inl first ↦ rw (first) (there here)
    | inr later ↦ rw (later) here
  ]
  insert_sorted-there before x (y ∷ ys) (there m) = elim (Bool-cases (before x y)) [
    | inl first ↦ rw (first) (there (there m))
    | inr later ↦ rw (later) (there (insert_sorted-there before x ys m))
  ]

  -- Sorting loses no row.
  pub order_by-Member :
      (before : A → A → Bool) (xs : List A) {z : A} → Member z xs → Member z (order_by before xs)
  unfolding order_by
  order_by-Member before [] m = m
  order_by-Member before (x ∷ xs) here = insert_sorted-here before x (order_by before xs)
  order_by-Member before (x ∷ xs) (there m) =
      insert_sorted-there before x (order_by before xs) (order_by-Member before xs m)

  pub select-Member :
      (p : A → Bool) (xs : List A) (z : A) → p z ≡ true → Member z xs → Member z (select p xs)
  unfolding select
  select-Member p [] z h m = elim m [ ]
  select-Member p (x ∷ xs) z h here = rw (h) here
  select-Member p (x ∷ xs) z h (there m) = elim (Bool-cases (p x)) [
    | inl keep ↦ rw (keep) (there (select-Member p xs z h m))
    | inr drop ↦ rw (drop) (select-Member p xs z h m)
  ]

  pub All-of_Member : {P : A → Type 0} (xs : List A) → ((x : A) → Member x xs → P x) → All P xs
  All-of_Member [] h = tt
  All-of_Member (x ∷ xs) h = (h x here, All-of_Member xs (λ y m. h y (there m)))

module _ (engine : Engine) where
  -- A query that succeeds gives its rows, and leaves the tables.
  pub run_query-success :
      {A : Type 0} (sql : Sql) (prepare_error step_error : Text) (rows : Tables → A) (t t' : Tables)
      (a : A)
      → run_query engine sql prepare_error step_error rows t ≡ (success a, t')
      → (rows t ≡ a) × (t ≡ t')
  unfolding run_query
  run_query-success sql prepare_error step_error rows t t' a h =
      elim (Option-cases (engine.prepare_fails sql t)) [
        | inr (message, e) ↦ absurd (ground arith)
        | inl prepared ↦ elim (Option-cases (engine.step_fails sql t)) [
          | inr (message, e) ↦ absurd (ground arith)
          | inl stepped ↦ (ground arith, ground arith)
        ]
      ]
