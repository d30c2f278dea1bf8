-- ===== src/Tests/Pushed.antt =====
-- A push of the rules of the toy machine to a driver.
use path_overlay.Base.{
  ℕ, ◌≡◌, ◌⊎◌, inl, refl, Bool, true, false, not, if◌then◌else◌, none, some, List, [], ◌∷◌, map,
}
use path_overlay.Base.Lists.{select}
use path_overlay.Wide.{Text}
use path_overlay.Driver.Status.{nt_success}
use path_overlay.Rules.{OverlayRule}
use path_overlay.Action.{success, failure, is_success}
use path_overlay.Driver.Kernel.{DriverState}
use path_overlay.Driver.Cache.{RuleMessage, entry_of, driver_message}
use path_overlay.Service.Push.{DriverPort, message_result, rule_message, push_driver_rules}
use path_overlay.Service.Push.Messages.{IsJoined, IsCleared}
use path_overlay.Service.Push.Atomic.{push_driver_rules_all_or_none}
use path_overlay.Tests.Toy.{toy, rule, two_disks}
use path_overlay.Tests.Answers.{devices}
use path_overlay.Tests.Volume.{connected_driver}

abbrev port : DriverPort (DriverState (List ℕ))
port = record {
  is_connected = λ s. s.client_port;
  filter_send_message = λ message s.
      (((driver_message (some message) s).0, none), (driver_message (some message) s).1);
  get_short_path_name = λ path. none;
}

accepted :
    (test : Bool) (message : Text)
    → is_success (if not test then failure message else success tt) ≡ test
accepted true message = refl
accepted false message = refl

port-IsJoined : IsJoined toy devices port
unfolding message_result
port-IsJoined message s = inl (accepted (nt_success (driver_message (some message) s).0) _, refl)

push_driver_rules_all_or_none_example :
    let (result, t) = push_driver_rules toy devices port two_disks (rule ∷ []) connected_driver in
    ((is_success result ≡ true)
      × (messages : List RuleMessage) × (map
            (rule_message toy devices port two_disks)
            (select (λ (r : OverlayRule). r.enabled) (rule ∷ []))
          ≡ map success messages)
      × (t.cache.rules ≡ map entry_of messages))
    ⊎ ((is_success result ≡ false) × IsCleared toy devices port t)
push_driver_rules_all_or_none_example =
    push_driver_rules_all_or_none toy devices port port-IsJoined two_disks (rule ∷ [])
      connected_driver
