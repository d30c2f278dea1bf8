-- ===== src/Action.antt =====
-- A method call on a state: `OperationResult` of common/overlay_operations.h, or a `bool` with an
-- `error` argument, beside the state that the call leaves, also when it fails.
pub mod Keeps
use path_overlay.Base.{
  ◌≡◌, refl, ap, ◌⊎◌, inl, inr, Bool, true, false, Option, none, some, List, [], ◌∷◌, if◌then◌else◌,
}
use path_overlay.Wide.{Text}

-- `success` with what the call returns, or `failure` with its message.
pub data OperationResult (A : Type 0) : Type 0 where
  success : A → OperationResult A
  failure : Text → OperationResult A

abbrev pub is_success : {A : Type 0} → OperationResult A → Bool
is_success (success _) = true
is_success (failure _) = false

abbrev pub ⊤ : Type 0
⊤ = Unit

pub result-cases :
    (r : OperationResult ⊤) → (r ≡ success tt) ⊎ ((message : Text) × (r ≡ failure message))
result-cases (success tt) = inl refl
result-cases (failure message) = inr (message, refl)

abbrev pub Action : Type 0 → Type 0 → Type 0
Action S A = S → OperationResult A × S

module _ {S : Type 0} {A : Type 0} where
  unfoldable pub pure : A → Action S A
  pure a s = (success a, s)

  unfoldable pub fail : Text → Action S A
  fail message s = (failure message, s)

  -- What a call reads of the state.
  unfoldable pub gets : (S → A) → Action S A
  gets f s = (success (f s), s)

  -- A call whose failure the caller looks at.
  unfoldable pub attempt : Action S A → Action S (OperationResult A)
  attempt m s = let (r, t) = m s in (success r, t)

-- A call whose outcome nobody looks at.
unfoldable pub ignore : {S A : Type 0} → Action S A → Action S ⊤
ignore m s = let (r, t) = m s in (success tt, t)

-- The value, or `return Fail(message);`
unfoldable pub or_fail : {S A : Type 0} → Option A → Text → Action S A
or_fail none message s = (failure message, s)
or_fail (some a) message s = (success a, s)

infixl 5 ◌>>=◌ ◌>>◌
unfoldable pub ◌>>=◌ : {S A B : Type 0} → Action S A → (A → Action S B) → Action S B
◌>>=◌ m f s =
    let (r, t) = m s in elim r [ success a ↦ f a t | failure message ↦ (failure message, t) ]

unfoldable pub ◌>>◌ : {S B : Type 0} → Action S ⊤ → Action S B → Action S B
unfolding ◌>>=◌
m >> k = m >>= λ _. k

-- `if (test) { return Fail(message); }`
unfoldable pub fail_if : {S : Type 0} → Bool → Text → Action S ⊤
fail_if test message s = (if test then failure message else success tt, s)

-- `if (test) { m; }`
unfoldable pub when : {S : Type 0} → Bool → Action S ⊤ → Action S ⊤
when test m s = if test then m s else (success tt, s)

-- `if (!value.has_value()) { m; } else { f(*value); }`
unfoldable pub on_option : {S A B : Type 0} → Option A → Action S B → (A → Action S B) → Action S B
on_option none m f s = m s
on_option (some a) m f s = f a s

-- `if (result.success) { f(*value); } else { g(message); }`
unfoldable pub on_result :
    {S A B : Type 0} → OperationResult A → (A → Action S B) → (Text → Action S B) → Action S B
on_result (success a) f g s = f a s
on_result (failure message) f g s = g message s

-- A `for` loop over a list; a failure of its body leaves the loop.
unfoldable pub for_each : {S A : Type 0} → List A → (A → Action S ⊤) → Action S ⊤
for_each [] body s = (success tt, s)
for_each (x ∷ xs) body s =
    let (r, t) = body x s in
    elim r [ success _ ↦ for_each xs body t | failure message ↦ (failure message, t) ]

-- To unfold this is to unfold the calls above.
unfoldable pub actions : ⊤
unfolding pure fail gets attempt ignore or_fail ◌>>=◌ ◌>>◌ fail_if when on_option on_result for_each
actions = tt

-- Inversion of a sequence of calls that succeeds.
pub >>=-success :
    {S A B : Type 0} (m : Action S A) (f : A → Action S B) (s : S) {b : B} {t : S}
    → (m >>= f) s ≡ (success b, t)
    → (a : A) × (u : S) × (m s ≡ (success a, u)) × (f a u ≡ (success b, t))
unfolding ◌>>=◌
>>=-success {S} {A} {B} m f s {b} {t} h = go (m s).0 (m s).1 refl refl h
  where
    go :
        (r : OperationResult A) (u : S)
        → (m s).0 ≡ r
        → (m s).1 ≡ u
        → (elim r as (λ _. OperationResult B × S) [
          | success a ↦ f a u
          | failure message ↦ (failure message, u)
        ])
          ≡ (success b, t)
        → (a : A) × (u : S) × (m s ≡ (success a, u)) × (f a u ≡ (success b, t))
    go (success a) u e d k = (a, u, cc, k)
    go (failure message) u e d k = cc

-- A sequence of calls whose first one succeeds.
pub >>=-of_success :
    {S A B : Type 0} (m : Action S A) (f : A → Action S B) (s : S) {a : A} {t : S}
    → m s ≡ (success a, t)
    → (m >>= f) s ≡ f a t
unfolding ◌>>=◌
>>=-of_success {S} {A} {B} m f s h =
    ap
      (λ (p : OperationResult A × S). elim p.0 as (λ _. OperationResult B × S) [
        | success a ↦ f a p.1
        | failure message ↦ (failure message, p.1)
      ])
      h
