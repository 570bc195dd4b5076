-- ===== src/Pull/Tests.antt =====
-- A pull from one device.
use valsec.Prelude.{ℕ, String, Bool, false, none, some, Result, ok, err}
use valsec.Errors.{TargetError, PullFailure, pull_unreachable}
use valsec.Mission.Types.{Device, Credential}
use valsec.Pull.{Services, pull_with_stored_credential}
use valsec.Pull.Safety.{with_connectors, IsSafe, pull_with_stored_credential-IsSafe}

abbrev float_text : ℕ → ℕ → String
float_text a b = ""

abbrev guard : String → Result TargetError String
guard address = ok address

abbrev retrieve : Credential → Result PullFailure String
retrieve c = ok "secret"

abbrev ssh_fetch : String → ℕ → String → String → String → Result PullFailure String
ssh_fetch host port user secret vendor = ok "hostname r1"

abbrev telnet_fetch : String → ℕ → String → String → Result PullFailure String
telnet_fetch host port user secret = ok "hostname r1"

abbrev persist : String → Result PullFailure (ℕ × Bool)
persist raw = ok (1, false)

abbrev services : Services
services = record {
  guard = guard;
  retrieve = retrieve;
  ssh_fetch = ssh_fetch;
  telnet_fetch = telnet_fetch;
  persist = persist;
}

abbrev device : Device
device = record {
  id = 3;
  org_id = none;
  display_name = "r1";
  vendor = "cisco";
  os_type = "ios";
  management_address = some "10.0.0.1";
}

abbrev credential : Credential
credential = record { id = 0; device_id = 3; credential_type = "ssh"; username = "u" }

abbrev dead_ssh : String → ℕ → String → String → String → Result PullFailure String
dead_ssh host port user secret vendor = err pull_unreachable

abbrev dead_telnet : String → ℕ → String → String → Result PullFailure String
dead_telnet host port user secret = err pull_unreachable

pull_with_stored_credential-IsSafe_example :
    IsSafe services dead_ssh dead_telnet device credential "iso_iec_27001_2022" "pull" none
      (pull_with_stored_credential services device credential "iso_iec_27001_2022" "pull" none)
      (pull_with_stored_credential
        (with_connectors services dead_ssh dead_telnet)
        device
        credential
        "iso_iec_27001_2022"
        "pull"
        none)
pull_with_stored_credential-IsSafe_example =
    pull_with_stored_credential-IsSafe services dead_ssh dead_telnet device credential
      "iso_iec_27001_2022" "pull" none
