-- ===== src/Tests/Approvals.antt =====
-- The approval of connections, the trusted devices and the Miracast receiver at concrete inputs.
use air_show.Prelude.{
  ◌↔◌, ℕ, ℕ, any, ◌==◌, ◌≡◌, refl, true, false, not, ◌||◌, ◌&&◌, List, [], ◌∷◌, none, some, All,
  same_bytes,
}
use air_show.Dns.Wire.{lower}
use air_show.Settings.{
  Text, AppSettings, trusted_devices, add_trusted_device, remove_trusted_device,
  clear_trusted_devices, contains,
}
use air_show.Settings.Trusted.{
  IsDistinct, contains-add_trusted_device, contains-remove_trusted_device,
  trusted_devices-IsDistinct,
}
use air_show.Security.{
  ApprovalRequest, Manager, Event, call, run, answer, waking, history, fresh, resolve_approval,
  call_async, called_back, apply, check_connection_async, wake, admits, returned,
}
use air_show.Security.Network.{
  Addresses, Interface, is_local_network, local_network_addresses,
  is_local_network-local_network_addresses,
}
use air_show.Security.Network.Given.{Stands, IsGiven, local_network_addresses-IsGiven}
use air_show.Security.Steps.{IsGranted, approvals, prompted_yes_needs_approval}
use air_show.Security.Answers.{resolve_approval-admits, wake-resolve_approval}

abbrev phone : Text
phone = 112 ∷ []

abbrev laptop : Text
laptop = 108 ∷ []

abbrev settings : AppSettings
settings = record {
  receiver_name = none;
  first_launch_complete = none;
  require_approval = some true;
  pin_enabled = none;
  pin = none;
  trusted_devices = some (phone ∷ []);
}

contains-add_trusted_device_run :
    contains (trusted_devices (add_trusted_device laptop settings)) phone
    ≡ (contains (trusted_devices settings) phone || same_bytes phone laptop)
contains-add_trusted_device_run = contains-add_trusted_device settings laptop phone

contains-remove_trusted_device_run :
    contains (trusted_devices (remove_trusted_device phone settings)) phone
    ≡ (contains (trusted_devices settings) phone && not (same_bytes phone phone))
contains-remove_trusted_device_run = contains-remove_trusted_device settings phone phone

settings-IsDistinct : IsDistinct (trusted_devices settings)
unfolding trusted_devices
settings-IsDistinct = (refl, tt)

trusted_devices-IsDistinct_example :
    IsDistinct (trusted_devices (add_trusted_device laptop settings))
    × IsDistinct (trusted_devices (remove_trusted_device laptop settings))
    × IsDistinct (trusted_devices (clear_trusted_devices settings))
trusted_devices-IsDistinct_example = trusted_devices-IsDistinct settings laptop settings-IsDistinct

-- A call of a device that is not trusted, its prompt, the answer and the wake-up.
abbrev events : List Event
events = call 1 laptop laptop laptop ∷ run ∷ answer 1 true ∷ waking 1 ∷ []

prompted_yes_needs_approval_example :
    All (IsGranted (approvals [] events)) (history (fresh settings) events).told
prompted_yes_needs_approval_example = prompted_yes_needs_approval settings events

abbrev pending_request : ApprovalRequest
pending_request = record {
  device_name = laptop;
  protocol = laptop;
  device_identifier = laptop;
  semaphore = 0;
  approved = false;
}

abbrev prompted : Manager
prompted = record {
  settings = settings;
  requests = (1, pending_request) ∷ [];
  queued = [];
  pending = 1 ∷ [];
  async = 2 ∷ [];
  prompts = 2 ∷ 1 ∷ [];
  told = [];
}

resolve_approval-admits_run : admits (resolve_approval 1 true prompted).settings laptop ≡ true
resolve_approval-admits_run = resolve_approval-admits prompted 1 pending_request refl refl refl

abbrev async_events : List Event
async_events = call_async 2 laptop ∷ run ∷ answer 2 true ∷ waking 2 ∷ []

approved_async : (history (fresh settings) async_events).told ≡ called_back 2 true ∷ []
unfolding history apply check_connection_async resolve_approval wake
    air_show.Settings.require_approval trusted_devices
approved_async = refl

wake-resolve_approval_run : (wake 1 (resolve_approval 1 true prompted)).told ≡ returned 1 true ∷ []
wake-resolve_approval_run = wake-resolve_approval prompted 1 true pending_request refl refl

-- Addresses as numbers: 10 is private, 127 loopback.
abbrev addresses : Addresses ℕ
addresses = record {
  is_loopback = λ a. a == 127;
  is_private_use = λ a. a == 10;
  is_link_local = λ a. false;
}

-- `Tun0`, `en` and `lo`.
abbrev interfaces : List (Interface ℕ)
interfaces =
    record { is_loopback = false; name = b'T' ∷ b'u' ∷ b'n' ∷ b'0' ∷ []; addresses = 10 ∷ [] }
    ∷ record { is_loopback = false; name = b'e' ∷ b'n' ∷ []; addresses = 10 ∷ 8 ∷ [] }
    ∷ record { is_loopback = true; name = b'l' ∷ b'o' ∷ []; addresses = 127 ∷ [] }
    ∷ []

local_network_addresses-interfaces : local_network_addresses addresses interfaces ≡ 10 ∷ []
unfolding local_network_addresses lower
local_network_addresses-interfaces = refl

local_network_addresses-IsGiven_example :
    Stands addresses 10 (local_network_addresses addresses interfaces)
    ↔ IsGiven addresses 10 interfaces
local_network_addresses-IsGiven_example = local_network_addresses-IsGiven addresses 10 interfaces

is_local_network-local_network_addresses_run :
    any (λ a. not (is_local_network addresses a)) (local_network_addresses addresses interfaces)
    ≡ false
is_local_network-local_network_addresses_run =
    is_local_network-local_network_addresses addresses interfaces
