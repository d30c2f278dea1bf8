-- ===== src/Driver/SetInformation/Recorded.antt =====
-- What `PathOverlayPreSetInformation` of driver/PathOverlayFlt/Driver.c does with a rename or a deletion.
use path_overlay.Base.{Bool}
use path_overlay.Wide.{Text}
use path_overlay.Driver.Status
use path_overlay.Driver.Kernel.{RuleEntry, DriverState, Kernel, D}
use path_overlay.Driver.Send.Sent.{IsInTime}
use path_overlay.Driver.Triple.{Triple}
use path_overlay.Driver.Create.{Preop}
use path_overlay.Driver.SetInformation.{SetInformationCall}
use path_overlay.Driver.SetInformation.Accepted.{KeepsPaths, IsRecorded, EndsRecorded}

module _ {S : Type 0} (kernel : Kernel S) where
  module _ (Recorded : DriverState S → Type 0) (call : SetInformationCall) (rule : RuleEntry)
      (source_path : Bool) (path : Text)
      (recorded : IsRecorded kernel call rule source_path path Recorded) (keeps : KeepsPaths kernel)
      (in_time : IsInTime kernel) where
    abbrev Ends : D S Preop → Type 0
    Ends m = Triple (λ _. Unit {0}) m (EndsRecorded kernel Recorded)
