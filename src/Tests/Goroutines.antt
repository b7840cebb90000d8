-- ===== src/Tests/Goroutines.antt =====
-- The waits of run_hetzner at concrete inputs.
use d2vm.Base.{Bool, true, false, [], ◌∷◌}
use d2vm.Host.{ssh}
use d2vm.Host.Logs.{event_of}
use d2vm.Host.Routines.Laws.{Ensures}
use d2vm.Hetzner.{install_utils, write_image, transfer, dial_within}
use d2vm.Hetzner.Waits.{transfer-Ensures, TriesFor, dial_within-TriesFor}
use d2vm.Tests.Machine.{machine, start}

transfer-Ensures_example :
    Ensures (event_of install_utils true) {M = Bool} (transfer "linux" "/tmp/disk0.raw")
    × Ensures
        (event_of (write_image "linux" "/tmp/disk0.raw") true)
        {M = Bool}
        (transfer "linux" "/tmp/disk0.raw")
transfer-Ensures_example = transfer-Ensures "linux" "/tmp/disk0.raw"

dial_within-TriesFor_example :
    TriesFor 3
      (ssh "dial" ("10.0.0.5" ∷ "root" ∷ "secret" ∷ []))
      "timeout while trying to connect to the server"
      []
      (dial_within 3 "10.0.0.5" "root" "secret" machine (start false)).1.log
      (dial_within 3 "10.0.0.5" "root" "secret" machine (start false)).0
dial_within-TriesFor_example =
    dial_within-TriesFor "10.0.0.5" "root" "secret" machine 3 (start false)
