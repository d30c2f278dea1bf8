-- ===== src/Driver/Send/Traces.antt =====
-- What the messages of a trace leave alone, in driver/PathOverlayFlt/Driver.c.
use path_overlay.Base.{
  ℕ, zero, suc, ◌+◌, ◌*◌, ◌<◌, ◌≡◌, ◌≢◌, refl, Bool, true, false, ◌&&◌, ◌||◌, not, inl, inr,
  Bool-cases, Option, none, some, [], ◌∷◌, length, ltb, ◌==◌, if◌then◌else◌, arith,
}
use path_overlay.Wide.{Text}
use path_overlay.Service.Request.{ServiceRequest, trace_create}
use path_overlay.Driver.Kernel.{RuleEntry, DriverState, Kernel, D, pure}
use path_overlay.Driver.Buffers.{Buffer, zeros, text_of, first_char}
use path_overlay.Driver.Access.{CreateCall}
use path_overlay.Driver.Send.{
  request_of, trace_request, send_trace_request, trace_pre_create_decision, should_trace_pre_create,
}
use path_overlay.Driver.Shadow.{built, refused, allocate_copy}
use path_overlay.Driver.Triple.{Triple, Triple-pure}
use path_overlay.Driver.Create.{trace}

pub text_of-zeros : (n : ℕ) → text_of (zeros n) ≡ []
unfolding zeros text_of
text_of-zeros zero = refl
text_of-zeros (suc n) = refl

-- A buffer that begins with a character has a text.
pub some_text :
    (buffer : Buffer) → not (first_char buffer == 0) ≡ true → 0 < length (text_of buffer)
unfolding text_of
some_text [] h = cc
some_text (ch ∷ rest) h = elim (Bool-cases (ch == 0)) [
  | inl end ↦ ground arith
  | inr more ↦ rw (more) (omega arith)
]

pub not_refused : {text : Text} {status : ℕ} → built text ≢ refused status
not_refused e = cc

pub and_false : (a b : Bool) → a ≡ false → (a && b) ≡ false
and_false a b h = ground arith

pub and_ne : (a : Bool) (m n : ℕ) → m ≢ n → (a && m == n) ≡ false
and_ne a m n h = ground arith

pub and_left : (a b : Bool) → (a && b) ≡ true → a ≡ true
and_left a b h = ground arith

pub and_right : (a b : Bool) → (a && b) ≡ true → b ≡ true
and_right a b h = ground arith

module _ {S : Type 0} (kernel : Kernel S) where
  pub allocate_copy-built :
      (text : Text) (s : DriverState S)
      → 0 < length text
      → length text < 520
      → kernel.allocate_pool (2 * length text + 2) s ≡ true
      → allocate_copy kernel text s ≡ built text
  unfolding allocate_copy
  allocate_copy-built text s p l pool = rw (small _ p l, pool) refl
    where
      small : (n : ℕ) → 0 < n → n < 520 → (n == 0 || ltb 1038 (2 * n)) ≡ false
      small n p l = ground arith

  -- A property that a message of a trace leaves alone.
  abbrev pub KeptByTraces : (DriverState S → Type 0) → Type 0
  KeptByTraces P =
      (request : ServiceRequest) (s : DriverState S)
      → request.command ≡ trace_create
      → P s
      → P (kernel.send_message request s).1

  either :
      (P : DriverState S → Type 0) (test : Bool) (s t : DriverState S)
      → P s
      → P t
      → P (let r : Unit {0} × DriverState S = if test then (tt, s) else (tt, t) in r.1)
  either P true s t p q = p
  either P false s t p q = q

  pub request_of-command :
      (command : ℕ) (rule_id : Buffer) (real_path : Text) (target_path : Option Text)
      → (request_of command rule_id real_path target_path).command ≡ command
  unfolding request_of
  request_of-command command rule_id real_path target_path = refl

  pub trace_request-command :
      (rule_id : Option Buffer) (real_path detail : Text)
      → (trace_request kernel rule_id real_path detail).command ≡ trace_create
  unfolding trace_request
  trace_request-command rule_id real_path detail = refl

  pub send_trace_request-keeps :
      {P : DriverState S → Type 0} (rule_id : Option Buffer) (real_path detail : Text)
      → KeptByTraces P
      → Triple P (send_trace_request kernel rule_id real_path detail) (λ _. P)
  unfolding send_trace_request
  send_trace_request-keeps {P} rule_id real_path detail h = record {
    at = λ s p. either P _ s _ p (
        h (trace_request kernel rule_id real_path detail) s
          (trace_request-command rule_id real_path detail) p);
  }

  module _ (call : CreateCall) (path : Text) (rule : RuleEntry) where
    pub trace-keeps :
        {P : DriverState S → Type 0} (action : Text) (status write real shadow : ℕ)
        → KeptByTraces P
        → Triple P (trace kernel call path rule action status write real shadow) (λ _. P)
    unfolding trace trace_pre_create_decision
    trace-keeps {P} action status write real shadow h =
        elim (Bool-cases (should_trace_pre_create kernel path call)) [
          | inr silent ↦ rw (silent) (Triple-pure tt (λ s p. p))
          | inl traced ↦ rw (traced) (printed (kernel.format_detail _))
        ]
      where
        printed :
            (detail : Option Text)
            → Triple P
                (elim detail as (λ _. D S (Unit {0})) [
                  | none ↦ pure tt
                  | some text ↦ send_trace_request kernel (some rule.rule_id) path text
                ])
                (λ _. P)
        printed none = Triple-pure tt (λ s p. p)
        printed (some text) = send_trace_request-keeps (some rule.rule_id) path text h
