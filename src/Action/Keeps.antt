-- ===== src/Action/Keeps.antt =====
-- What a method call does to its state whether it succeeds or fails: a rule for each way to build
-- a call.
use path_overlay.Base.{
  ◌≡◌, refl, Bool, true, false, Option, none, some, List, [], ◌∷◌, if◌then◌else◌,
}
use path_overlay.Wide.{Text}
use path_overlay.Action.{
  OperationResult, success, failure, ⊤, Action, pure, fail, gets, attempt, ignore, or_fail, ◌>>=◌,
  ◌>>◌, fail_if, when, on_option, on_result, for_each, >>=-success,
}

-- A relation of states that a sequence of calls can be followed along.
pub record IsPreorder {S : Type 0} (R : S → S → Type 0) : Type 0 where
  pub rel_refl : (s : S) → R s s
  pub rel_trans : (s t u : S) → R s t → R t u → R s u

pub record Keeps {S A : Type 0} (R : S → S → Type 0) (m : Action S A) : Type 0 where
  pub at : (s : S) → R s (m s).1

module _ {S : Type 0} {R : S → S → Type 0} (p : IsPreorder R) where
  module _ {A : Type 0} where
    pub Keeps-pure : (a : A) → Keeps R (pure {S = S} a)
    unfolding pure
    Keeps-pure a = record { at = λ s. p.rel_refl s }

    pub Keeps-fail : (message : Text) → Keeps R (fail {S = S} {A = A} message)
    unfolding fail
    Keeps-fail message = record { at = λ s. p.rel_refl s }

    pub Keeps-gets : (f : S → A) → Keeps R (gets f)
    unfolding gets
    Keeps-gets f = record { at = λ s. p.rel_refl s }

    pub Keeps-or_fail : (o : Option A) (message : Text) → Keeps R (or_fail {S = S} o message)
    unfolding or_fail
    Keeps-or_fail none message = record { at = λ s. p.rel_refl s }
    Keeps-or_fail (some a) message = record { at = λ s. p.rel_refl s }

    pub Keeps-attempt : (m : Action S A) → Keeps R m → Keeps R (attempt m)
    unfolding attempt
    Keeps-attempt m k = record { at = λ s. k.at s }

    pub Keeps-ignore : (m : Action S A) → Keeps R m → Keeps R (ignore m)
    unfolding ignore
    Keeps-ignore m k = record { at = λ s. k.at s }

  pub Keeps-fail_if : (test : Bool) (message : Text) → Keeps R (fail_if {S = S} test message)
  unfolding fail_if
  Keeps-fail_if test message = record { at = λ s. p.rel_refl s }

  module _ {A : Type 0} where
    pub Keeps-if :
        (test : Bool) (m n : Action S A)
        → (test ≡ true → Keeps R m)
        → (test ≡ false → Keeps R n)
        → Keeps R (if test then m else n)
    Keeps-if true m n km kn = km refl
    Keeps-if false m n km kn = kn refl

  pub Keeps-when :
      (test : Bool) (m : Action S ⊤) → (test ≡ true → Keeps R m) → Keeps R (when test m)
  unfolding when
  Keeps-when true m km = record { at = λ s. (km refl).at s }
  Keeps-when false m km = record { at = λ s. p.rel_refl s }

  module _ {A B : Type 0} (f : A → Action S B) (kf : (a : A) → Keeps R (f a)) where
    -- The state behind a call that ended with `r` at `t`, and then `f`.
    pub Keeps-continue :
        (r : OperationResult A) (s t : S)
        → R s t
        → R s
            (elim r as (λ _. OperationResult B × S) [
              | success a ↦ f a t
              | failure message ↦ (failure message, t)
            ]).1
    Keeps-continue (success a) s t h = p.rel_trans s t _ h ((kf a).at t)
    Keeps-continue (failure message) s t h = h

  module _ {A B : Type 0} where
    pub Keeps-bind :
        (m : Action S A) (f : A → Action S B)
        → Keeps R m
        → ((a : A) → Keeps R (f a))
        → Keeps R (m >>= f)
    unfolding ◌>>=◌
    Keeps-bind m f km kf = record { at = λ s. Keeps-continue f kf (m s).0 s (m s).1 (km.at s) }

  module _ {A B : Type 0} where
    -- The rest of the block may use that the first call can succeed with `a`.
    pub Keeps-bind_yields :
        (m : Action S A) (f : A → Action S B)
        → Keeps R m
        → ((a : A) (s : S) → (m s).0 ≡ success a → Keeps R (f a))
        → Keeps R (m >>= f)
    unfolding ◌>>=◌
    Keeps-bind_yields m f km kf = record { at = λ s. go s (m s).0 (m s).1 refl (km.at s) }
      where
        go :
            (s : S) (r : OperationResult A) (t : S)
            → (m s).0 ≡ r
            → R s t
            → R s
                (elim r as (λ _. OperationResult B × S) [
                  | success a ↦ f a t
                  | failure message ↦ (failure message, t)
                ]).1
        go s (success a) t e h = p.rel_trans s t _ h ((kf a s e).at t)
        go s (failure message) t e h = h

  module _ {A B : Type 0} where
    pub Keeps-on_option :
        (o : Option A) (m : Action S B) (f : A → Action S B)
        → Keeps R m
        → ((a : A) → o ≡ some a → Keeps R (f a))
        → Keeps R (on_option o m f)
    unfolding on_option
    Keeps-on_option none m f km kf = record { at = λ s. km.at s }
    Keeps-on_option (some a) m f km kf = record { at = λ s. (kf a refl).at s }

  module _ {A B : Type 0} where
    pub Keeps-on_result :
        (r : OperationResult A) (f : A → Action S B) (g : Text → Action S B)
        → ((a : A) → Keeps R (f a))
        → ((message : Text) → Keeps R (g message))
        → Keeps R (on_result r f g)
    unfolding on_result
    Keeps-on_result (success a) f g kf kg = record { at = λ s. (kf a).at s }
    Keeps-on_result (failure message) f g kf kg = record { at = λ s. (kg message).at s }

  module _ {B : Type 0} where
    pub Keeps-then : (m : Action S ⊤) (n : Action S B) → Keeps R m → Keeps R n → Keeps R (m >> n)
    unfolding ◌>>◌
    Keeps-then m n km kn = Keeps-bind m (λ _. n) km (λ _. kn)

  module _ {A : Type 0} where
    pub Keeps-for_each :
        (xs : List A) (body : A → Action S ⊤)
        → ((x : A) → Keeps R (body x))
        → Keeps R (for_each xs body)
    unfolding for_each
    Keeps-for_each [] body k = record { at = λ s. p.rel_refl s }
    Keeps-for_each (x ∷ xs) body k = record {
      at = λ s.
          Keeps-continue (λ _. for_each xs body) (λ _. Keeps-for_each xs body k) (body x s).0 s
            (body x s).1 ((k x).at s);
    }

pub ruleset keeps_rules = (
  Keeps-pure, Keeps-fail, Keeps-gets, Keeps-or_fail, Keeps-attempt, Keeps-ignore, Keeps-fail_if,
  Keeps-if, Keeps-when, Keeps-bind, Keeps-then, Keeps-on_option, Keeps-on_result, Keeps-for_each,
)

-- What holds of the state when a call succeeds.
pub record Ensures {S A : Type 0} (P : S → Type 0) (m : Action S A) : Type 0 where
  pub after : (s : S) (a : A) (t : S) → m s ≡ (success a, t) → P t

module _ {S : Type 0} {P : S → Type 0} where
  module _ {A B : Type 0} where
    -- It is enough that the rest of the block ensures it.
    pub Ensures-bind :
        (m : Action S A) (f : A → Action S B) → ((a : A) → Ensures P (f a)) → Ensures P (m >>= f)
    Ensures-bind m f k = record {
      after = λ s b t h. let (a, u, e, g) = >>=-success m f s h in (k a).after u b t g;
    }

  module _ {B : Type 0} where
    pub Ensures-then : (m : Action S ⊤) (n : Action S B) → Ensures P n → Ensures P (m >> n)
    unfolding ◌>>◌
    Ensures-then m n k = Ensures-bind m (λ _. n) (λ _. k)
