-- ===== src/Service/Push/Messages.antt =====
-- What a message of service/PathOverlaySvc/main.cpp does to the rules of the driver.
use path_overlay.Base.{
  if-cases, ℕ, ◌≡◌, ◌≢◌, refl, sym, ap, subst, ◌⊎◌, inl, inr, Bool, true, false, ◌||◌, not, Option,
  none, some, List, [], ◌∷◌, ◌++◌, length, leb, ◌==◌, if◌then◌else◌,
}
use mathlib.Core.Bool.{false≢true}
use path_overlay.Base.Lists.{All, select}
use path_overlay.Wide.{Text, is_empty}
use path_overlay.Os.{Os}
use path_overlay.Rules.{OverlayRule, map_real_path_to_shadow_path}
use path_overlay.Action.{
  OperationResult, success, failure, is_success, Action, fail, ignore, ◌>>=◌, ◌>>◌, ⊤,
}
use path_overlay.Service.NtPath.{Devices, dos_path_to_nt_path}
use path_overlay.Driver.Status
use path_overlay.Driver.Status.{nt_success}
use path_overlay.Driver.Kernel.{RuleCache, DriverState}
use path_overlay.Driver.Buffers.{Buffer, first_char}
use path_overlay.Driver.Cache.{
  RuleMessage, max_driver_rules, no_rules, entry_of, set_rule, run_command, driver_message,
}
use path_overlay.Service.Push.{
  DriverPort, protocol_array, message_result, send_driver_rule_message, clear_message,
  clear_driver_rule, message_of_paths, set_message, rule_message, clear_and_fail, source_alias,
}

-- The steps of a chain of options that ends with a value.
pub option_step :
    {A B : Type 0} (o : Option A) (f : A → Option B) {b : B}
    → elim o as (λ _. Option B) [ none ↦ none | some a ↦ f a ] ≡ some b
    → (a : A) × (o ≡ some a) × (f a ≡ some b)
option_step none f h = absurd (none_is_not_some h)
  where
    none_is_not_some : {B : Type 0} {b : B} → none ≢ some b
    none_is_not_some e = cc
option_step (some a) f h = (a, refl, h)

pub failure_is_not_success : {A : Type 0} {a : A} {message : Text} → failure message ≢ success a
failure_is_not_success e = cc

pub result_step :
    {A B : Type 0} (o : Option A) (f : A → OperationResult B) (message : Text) {b : B}
    → elim o as (λ _. OperationResult B) [ none ↦ failure message | some a ↦ f a ] ≡ success b
    → (a : A) × (f a ≡ success b)
result_step none f message h = absurd (failure_is_not_success h)
result_step (some a) f message h = (a, h)

pub past_refusal :
    {B : Type 0} (test : Bool) (message : Text) {x : OperationResult B} {b : B}
    → (if test then failure message else x) ≡ success b
    → x ≡ success b
past_refusal true message h = absurd (failure_is_not_success h)
past_refusal false message h = h

pub accepted_value :
    {B : Type 0} (o : Option B) (message : Text) {b : B}
    → elim o as (λ _. OperationResult B) [ none ↦ failure message | some a ↦ success a ] ≡ success b
    → o ≡ some b
accepted_value none message h = absurd (failure_is_not_success h)
accepted_value (some a) message h = ap some (success_same h)
  where
    success_same : {B : Type 0} {a b : B} → success a ≡ success b → a ≡ b
    success_same e = cc

-- The message is one of `PathOverlayDriverCommandSetRule` for an enabled rule.
pub record IsSetMessage (m : RuleMessage) : Type 0 where
  pub same :
      (id : Buffer) × (source : Buffer) × (alias : Buffer) × (store : Buffer) × (process : ℕ) × (m
        ≡ set_message process id source alias store)

-- The end of `set_rule`, by its two tests.
abbrev pub added_if : Bool → Bool → RuleCache → RuleCache → ℕ × RuleCache
added_if a b c d =
    if a
    then (Status.invalid_parameter, c)
    else if b
    then (Status.insufficient_resources, c)
    else (Status.success, d)

pub added_if-rules :
    (a b : Bool) (c d : RuleCache)
    → nt_success (added_if a b c d).0 ≡ true
    → (added_if a b c d).1.rules ≡ d.rules
added_if-rules true b c d h = absurd (false≢true h)
added_if-rules false true c d h = absurd (false≢true h)
added_if-rules false false c d h = refl

pub select-enabled :
    (rules : List OverlayRule)
    → All
        (λ (rule : OverlayRule). rule.enabled ≡ true)
        (select (λ (rule : OverlayRule). rule.enabled) rules)
unfolding select
select-enabled [] = tt
select-enabled (rule ∷ rules) =
    if-cases (All (λ (rule : OverlayRule). rule.enabled ≡ true)) rule.enabled
      (rule ∷ select (λ (rule : OverlayRule). rule.enabled) rules)
      (select (λ (rule : OverlayRule). rule.enabled) rules)
      (λ enabled. (enabled, select-enabled rules)) (λ disabled. select-enabled rules)

pub taken : {A : Type 0} (test : Bool) (x y : A) → test ≡ true → (if test then x else y) ≡ x
taken true x y h = refl
taken false x y h = absurd (false≢true h)

module _ {S : Type 0} (m k : Action S ⊤) (s : S) where
  pub then-fails :
      is_success (m s).0 ≡ false → (is_success ((m >> k) s).0 ≡ false) × (((m >> k) s).1 ≡ (m s).1)
  unfolding ◌>>=◌ ◌>>◌
  then-fails h = by_result (m s).0 (m s).1 h
    where
      by_result :
          (r : OperationResult ⊤) (t : S)
          → is_success r ≡ false
          → let o : OperationResult ⊤ × S = elim r [
            | success a ↦ k t
            | failure message ↦ (failure message, t)
          ] in
            (is_success o.0 ≡ false) × (o.1 ≡ t)
      by_result (success a) t e = absurd (false≢true (sym e))
      by_result (failure message) t e = (refl, refl)

  pub then-goes_on : is_success (m s).0 ≡ true → (m >> k) s ≡ k (m s).1
  unfolding ◌>>=◌ ◌>>◌
  then-goes_on h = by_result (m s).0 (m s).1 h
    where
      by_result :
          (r : OperationResult ⊤) (t : S)
          → is_success r ≡ true
          → elim r as (λ _. OperationResult ⊤ × S) [
            | success a ↦ k t
            | failure message ↦ (failure message, t)
          ]
            ≡ k t
      by_result (success a) t e = refl
      by_result (failure message) t e = absurd (false≢true e)

module _ (os : Os) (devices : Devices) {S : Type 0} (port : DriverPort (DriverState S)) where
  -- A message reaches the driver, and the call gives the driver's answer; or the call fails and the driver
  -- stays as it was.
  abbrev pub Sends : RuleMessage → DriverState S → OperationResult ⊤ × DriverState S → Type 0
  Sends message s (result, t) =
      ((is_success result ≡ nt_success (driver_message (some message) s).0)
        × (t ≡ (driver_message (some message) s).1))
      ⊎ ((is_success result ≡ false) × (t ≡ s))

  -- The port leads to the driver, where a call of `FilterSendMessage` does not fail.
  abbrev pub IsJoined : Type 0
  IsJoined =
      (message : RuleMessage) (s : DriverState S)
      → Sends message s (
        message_result os devices port (port.filter_send_message message s).0,
        (port.filter_send_message message s).1,
      )

  -- The driver has no rule; or the state is the one that a `ClearDriverRule` that failed has left.
  abbrev pub IsCleared : DriverState S → Type 0
  IsCleared t =
      (t.cache.rules ≡ [])
      ⊎ ((s : DriverState S) × (is_success (clear_driver_rule os devices port s).0 ≡ false)
          × (t ≡ (clear_driver_rule os devices port s).1))

  pub message_of_paths-IsSetMessage :
      (rule_id source alias store : Text) {m : RuleMessage}
      → message_of_paths os devices port rule_id source alias store ≡ some m
      → IsSetMessage m
  unfolding message_of_paths
  message_of_paths-IsSetMessage rule_id source alias store h =
      let (id, e1, h1) = option_step (protocol_array rule_id 64) _ h in
      let (src, e2, h2) = option_step (protocol_array source 520) _ h1 in
      let (als, e3, h3) = option_step (protocol_array alias 520) _ h2 in
      let (sto, e4, h4) = option_step (protocol_array store 520) _ h3 in
      record { same = (id, src, als, sto, os.process_id, sym (some_same h4)) }
    where
      some_same : {A : Type 0} {a b : A} → some a ≡ some b → a ≡ b
      some_same e = cc

  pub rule_message-IsSetMessage :
      (fs : os.Fs) (rule : OverlayRule) {m : RuleMessage}
      → rule_message os devices port fs rule ≡ success m
      → IsSetMessage m
  unfolding rule_message
  rule_message-IsSetMessage fs rule h =
      let (shadow_source, h1) =
        result_step (map_real_path_to_shadow_path os fs rule rule.source) _ _ h in
      let source_nt_path = dos_path_to_nt_path os devices rule.source in
      let h2 =
        past_refusal
          (is_empty source_nt_path || is_empty (dos_path_to_nt_path os devices shadow_source)) _
          h1 in
      message_of_paths-IsSetMessage rule.id source_nt_path
        (source_alias os devices port rule.source source_nt_path)
        (dos_path_to_nt_path os devices shadow_source) (accepted_value _ _ h2)

  -- What a message does to the driver.
  module _ (joined : IsJoined) where
    pub send_driver_rule_message-Sends :
        (message : RuleMessage) (s : DriverState S)
        → Sends message s (send_driver_rule_message os devices port message s)
    unfolding send_driver_rule_message
    send_driver_rule_message-Sends message s =
        if-cases (Sends message s) (not (port.is_connected s)) _ _ (λ closed. inr (refl, refl))
          (λ open_. joined message s)

    pub clear_driver_rule-clears :
        (s : DriverState S)
        → (is_success (clear_driver_rule os devices port s).0 ≡ false)
          ⊎ ((is_success (clear_driver_rule os devices port s).0 ≡ true)
              × ((clear_driver_rule os devices port s).1 ≡ record s { cache = no_rules }))
    unfolding clear_driver_rule driver_message run_command
    clear_driver_rule-clears s =
        elim (send_driver_rule_message-Sends (clear_message os devices port) s) [
          | inl reached ↦ inr reached
          | inr (failed, same) ↦ inl failed
        ]

    pub clear_and_fail-IsCleared :
        (message : Text) (s : DriverState S)
        → (is_success (clear_and_fail os devices port message s).0 ≡ false)
          × IsCleared (clear_and_fail os devices port message s).1
    unfolding clear_and_fail ◌>>=◌ ◌>>◌ ignore fail
    clear_and_fail-IsCleared message s = (
      refl,
      elim (clear_driver_rule-clears s) [
        | inl failed ↦ inr (s, failed, refl)
        | inr (done, cleared) ↦ inl (ap (λ t. t.cache.rules) cleared)
      ],
    )

    pub set_message-adds :
        (process : ℕ) (id source alias store : Buffer) (s : DriverState S)
        → let message = set_message process id source alias store in
          nt_success (driver_message (some message) s).0 ≡ true
          → (driver_message (some message) s).1.cache.rules
            ≡ s.cache.rules ++ (entry_of message ∷ [])
    unfolding driver_message run_command set_rule
    set_message-adds process id source alias store s accepted =
        added_if-rules (first_char id == 0 || (first_char source == 0 || first_char store == 0))
          (leb max_driver_rules (length s.cache.rules)) s.cache _ accepted

    pub set_rule-adds :
        (message : RuleMessage) (s : DriverState S)
        → IsSetMessage message
        → nt_success (driver_message (some message) s).0 ≡ true
        → (driver_message (some message) s).1.cache.rules ≡ s.cache.rules ++ (entry_of message ∷ [])
    set_rule-adds message s is_set =
        let (id, source, alias, store, process, same) = is_set.same in
        subst
          (λ m.
            nt_success (driver_message (some m) s).0 ≡ true
            → (driver_message (some m) s).1.cache.rules ≡ s.cache.rules ++ (entry_of m ∷ []))
          (sym same) (set_message-adds process id source alias store s)
