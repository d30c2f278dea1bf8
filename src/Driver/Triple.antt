-- ===== src/Driver/Triple.antt =====
-- What a call of driver/PathOverlayFlt/Driver.c returns and leaves, from a state with a property.
use path_overlay.Base.{◌≡◌, refl, Bool, true, false, if◌then◌else◌}
use path_overlay.Driver.Kernel.{DriverState, D, ◌>>=◌, ◌>>◌, pure, reads}

pub record Triple {S A : Type 0} (P : DriverState S → Type 0) (m : D S A)
    (Q : A → DriverState S → Type 0) : Type 0 where
  pub at : (s : DriverState S) → P s → Q (m s).0 (m s).1

module _ {S : Type 0} {P : DriverState S → Type 0} where
  module _ {A : Type 0} {Q : A → DriverState S → Type 0} where
    pub Triple-pure : (a : A) → ((s : DriverState S) → P s → Q a s) → Triple P (pure a) Q
    unfolding pure
    Triple-pure a h = record { at = h }

    pub Triple-if :
        (test : Bool) (m n : D S A)
        → (test ≡ true → Triple P m Q)
        → (test ≡ false → Triple P n Q)
        → Triple P (if test then m else n) Q
    Triple-if true m n h k = h refl
    Triple-if false m n h k = k refl

  module _ {A B : Type 0} {Q : B → DriverState S → Type 0} where
    pub Triple-bind :
        (R : A → DriverState S → Type 0) (m : D S A) (f : A → D S B)
        → Triple P m R
        → ((a : A) → Triple (R a) (f a) Q)
        → Triple P (m >>= f) Q
    unfolding ◌>>=◌
    Triple-bind R m f h k = record { at = λ s p. (k (m s).0).at (m s).1 (h.at s p) }

    -- A call that reads the state.
    pub Triple-reads :
        (g : DriverState S → A) (f : A → D S B)
        → ((a : A) → Triple (λ s. P s × (g s ≡ a)) (f a) Q)
        → Triple P (reads g >>= f) Q
    unfolding ◌>>=◌ reads
    Triple-reads g f h = record { at = λ s p. (h (g s)).at s (p, refl) }

  module _ {B : Type 0} {Q : B → DriverState S → Type 0} where
    -- A call that keeps `P`, before another.
    pub Triple-then :
        (m : D S (Unit {0})) (n : D S B) → Triple P m (λ _. P) → Triple P n Q → Triple P (m >> n) Q
    unfolding ◌>>=◌ ◌>>◌
    Triple-then m n h k = record { at = λ s p. k.at (m s).1 (h.at s p) }

pub Triple-weaken :
    {S A : Type 0} {P R : DriverState S → Type 0} {m : D S A} {Q : A → DriverState S → Type 0}
    → ((s : DriverState S) → P s → R s)
    → Triple R m Q
    → Triple P m Q
Triple-weaken h k = record { at = λ s p. k.at s (h s p) }
