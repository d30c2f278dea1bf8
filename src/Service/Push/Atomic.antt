-- ===== src/Service/Push/Atomic.antt =====
-- Whether the driver has all the rules of a push of service/PathOverlaySvc/main.cpp.
use path_overlay.Base.{
  ◌≡◌, refl, sym, ap, subst, ◌∙◌, ◌⊎◌, inl, inr, Bool, true, false, not, Bool-cases, Option, none,
  some, List, [], ◌∷◌, ◌++◌, length, map, ltb, if◌then◌else◌,
}
use mathlib.Core.Bool.{false≢true}
use mathlib.Core.List.{append-nil, append_assoc}
use path_overlay.Base.Lists.{All, select}
use path_overlay.Wide.{Text, wide}
use path_overlay.Os.{Os}
use path_overlay.Rules.{OverlayRule}
use path_overlay.Action.{
  OperationResult, success, failure, is_success, Action, pure, fail, attempt, on_result, ◌>>=◌, ⊤,
}
use path_overlay.Service.NtPath.{Devices}
use path_overlay.Driver.Kernel.{DriverState}
use path_overlay.Driver.Cache.{RuleMessage, max_driver_rules, no_rules, entry_of}
use path_overlay.Service.Push.{
  DriverPort, send_driver_rule_message, clear_driver_rule, rule_message, push_message,
  push_driver_rule, clear_and_fail, validate_rules, push_rules, push_enabled_rules,
  push_driver_rules,
}
use path_overlay.Service.Push.Messages.{
  IsJoined, select-enabled, then-fails, then-goes_on, rule_message-IsSetMessage,
  send_driver_rule_message-Sends, clear_driver_rule-clears, clear_and_fail-IsCleared, IsCleared,
  set_rule-adds,
}

module _ (os : Os) (devices : Devices) {S : Type 0} (port : DriverPort (DriverState S))
    (joined : IsJoined os devices port) (fs : os.Fs) where
  -- All the rules are added to those of a state, or the push fails and the driver is cleared.
  abbrev Adds : List OverlayRule → DriverState S → OperationResult ⊤ × DriverState S → Type 0
  Adds rules s (result, t) =
      ((is_success result ≡ true)
        × (messages : List RuleMessage) × (map (rule_message os devices port fs) rules
            ≡ map success messages)
        × (t.cache.rules ≡ s.cache.rules ++ map entry_of messages))
      ⊎ ((is_success result ≡ false) × IsCleared os devices port t)

  -- The rule is added, or the push fails.
  abbrev Pushes : OverlayRule → DriverState S → OperationResult ⊤ × DriverState S → Type 0
  Pushes rule s (result, t) =
      (is_success result ≡ false)
      ⊎ ((is_success result ≡ true)
          × (message : RuleMessage) × (rule_message os devices port fs rule ≡ success message)
          × (t.cache.rules ≡ s.cache.rules ++ (entry_of message ∷ [])))

  push_message-Pushes :
      (rule : OverlayRule) (s : DriverState S) (found : OperationResult RuleMessage)
      → rule_message os devices port fs rule ≡ found
      → Pushes rule s (push_message os devices port found s)
  unfolding push_message fail
  push_message-Pushes rule s (failure text) e = inl refl
  push_message-Pushes rule s (success message) e =
      let (result, t) = send_driver_rule_message os devices port message s in
      elim (send_driver_rule_message-Sends os devices port joined message s) [
        | inr (failed, same) ↦ inl failed
        | inl (answers, after) ↦ elim (Bool-cases (is_success result)) [
          | inr failed ↦ inl failed
          | inl done ↦ inr (
            done,
            message,
            e,
            ap (λ u. u.cache.rules) after
                ∙ set_rule-adds os devices port joined message s
                    (rule_message-IsSetMessage os devices port fs rule e) (sym answers ∙ done),
          )
        ]
      ]

  push_driver_rule-Pushes :
      (rule : OverlayRule) (s : DriverState S)
      → rule.enabled ≡ true
      → Pushes rule s (push_driver_rule os devices port fs rule s)
  unfolding push_driver_rule
  push_driver_rule-Pushes rule s enabled =
      past (not rule.enabled) _ (ap not enabled)
        (push_message-Pushes rule s (rule_message os devices port fs rule) refl)
    where
      past :
          (test : Bool) (m : Action (DriverState S) ⊤)
          → test ≡ false
          → Pushes rule s (m s)
          → Pushes rule s ((if test then pure tt else m) s)
      past true m e h = absurd (false≢true (sym e))
      past false m e h = h

  -- The rest of the loop, from the outcome of its first rule.
  first-Adds :
      (rule : OverlayRule) (rules : List OverlayRule) (s : DriverState S)
      → ((t : DriverState S) → Adds rules t (push_rules os devices port fs rules t))
      → (result : OperationResult ⊤) (t : DriverState S) → Pushes rule s (result, t)
      → Adds (rule ∷ rules) s (
          on_result result
            (λ _. push_rules os devices port fs rules)
            (λ message. clear_and_fail os devices port message)
            t)
  unfolding on_result
  first-Adds rule rules s later (failure text) t outcome =
      inr (clear_and_fail-IsCleared os devices port joined text t)
  first-Adds rule rules s later (success a) t (inl failed) = absurd (false≢true (sym failed))
  first-Adds rule rules s later (success a) t (inr (done, message, e, added)) = elim (later t) [
    | inr gone ↦ inr gone
    | inl (succeeds, messages, same, rest) ↦ inl (
      succeeds,
      message ∷ messages,
      ap (λ xs. rule_message os devices port fs rule ∷ xs) same
          ∙ ap (λ x. x ∷ map success messages) e,
      rest
          ∙ (ap (λ xs. xs ++ map entry_of messages) added
              ∙ append_assoc s.cache.rules (entry_of message ∷ []) (map entry_of messages)),
    )
  ]

  push_rules-Adds :
      (rules : List OverlayRule) (s : DriverState S)
      → All (λ (rule : OverlayRule). rule.enabled ≡ true) rules
      → Adds rules s (push_rules os devices port fs rules s)
  unfolding push_rules pure attempt ◌>>=◌
  push_rules-Adds [] s all = inl (refl, [], refl, sym (append-nil s.cache.rules))
  push_rules-Adds (rule ∷ rules) s (enabled, all) =
      first-Adds rule rules s (λ t. push_rules-Adds rules t all)
        (push_driver_rule os devices port fs rule s).0
        (push_driver_rule os devices port fs rule s).1 (push_driver_rule-Pushes rule s enabled)

  -- The part of `PushDriverRules` behind the first message.
  push_enabled_rules-Adds :
      (rules : List OverlayRule) (s : DriverState S)
      → All (λ (rule : OverlayRule). rule.enabled ≡ true) rules
      → Adds rules s (push_enabled_rules os devices port fs rules s)
  unfolding push_enabled_rules
  push_enabled_rules-Adds rules s all =
      by_checks (ltb max_driver_rules (length rules)) (validate_rules os devices port fs [] rules)
    where
      by_checks :
          (many : Bool) (found : Option Text)
          → Adds rules s (
              (if many
                  then clear_and_fail os devices port
                      (wide "too many enabled rules for driver protocol")
                  else elim found as (λ _. Action (DriverState S) ⊤) [
                    | some message ↦ clear_and_fail os devices port message
                    | none ↦ push_rules os devices port fs rules
                  ])
                s)
      by_checks true found = inr (clear_and_fail-IsCleared os devices port joined _ s)
      by_checks false (some message) =
          inr (clear_and_fail-IsCleared os devices port joined message s)
      by_checks false none = push_rules-Adds rules s all

  -- `PushDriverRules` gives the driver all the enabled rules or none, if it can clear the driver: it succeeds,
  -- and the cache holds the entries of the messages of the enabled rules, in their order, and no other;
  -- or it fails, and the cache is empty, or the state is the one that a `ClearDriverRule` which failed has
  -- left. A message reaches the driver, or its call of `FilterSendMessage` fails and leaves the driver alone.
  pub push_driver_rules_all_or_none :
      (rules : List OverlayRule) (s : DriverState S)
      → let (result, t) = push_driver_rules os devices port fs rules s in
        ((is_success result ≡ true)
          × (messages : List RuleMessage) × (map
                (rule_message os devices port fs)
                (select (λ (rule : OverlayRule). rule.enabled) rules)
              ≡ map success messages)
          × (t.cache.rules ≡ map entry_of messages))
        ⊎ ((is_success result ≡ false) × IsCleared os devices port t)
  unfolding push_driver_rules
  push_driver_rules_all_or_none rules s =
      let enabled = select (λ (rule : OverlayRule). rule.enabled) rules in
      let rest = push_enabled_rules os devices port fs enabled in
      elim (clear_driver_rule-clears os devices port joined s) [
        | inl failed ↦
            let (fails, stays) = then-fails (clear_driver_rule os devices port) rest s failed in
            inr (fails, inr (s, failed, stays))
        | inr (done, cleared) ↦
            subst (Adds enabled (record s { cache = no_rules }))
              (sym (then-goes_on (clear_driver_rule os devices port) rest s done ∙ ap rest cleared))
              (push_enabled_rules-Adds enabled (record s { cache = no_rules })
                (select-enabled rules))
      ]
