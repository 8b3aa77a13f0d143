-- ===== src/Settings.antt =====
-- The persistent settings: src/settings/AppSettings.cpp. The settings store (QSettings) is the record
-- of the values that it holds; `none` is a key that was never written.
pub mod Trusted
use air_show.Prelude.{
  ℕ, Bool, true, false, not, List, [], ◌∷◌, ◌++◌, Option, none, some, if◌then◌else◌, ltb, Bytes,
  length, is_empty, any, same_bytes,
}

-- A text (QString) as its UTF-16 code units.
abbrev pub Text : Type 0
Text = Bytes

pub record AppSettings : Type 0 where
  pub receiver_name : Option Text
  pub first_launch_complete : Option Bool
  pub require_approval : Option Bool
  pub pin_enabled : Option Bool
  pub pin : Option Text
  pub trusted_devices : Option (List Text)

-- `s.value(key, default)`.
abbrev pub value_or {ℓ} : {A : Type ℓ} → Option A → A → A
value_or none d = d
value_or (some a) d = a

-- `host` is what the operating system reports (QSysInfo::machineHostName).
unfoldable pub default_receiver_name : Text → Text
default_receiver_name host =
    if is_empty host then b'A' ∷ b'i' ∷ b'r' ∷ b'S' ∷ b'h' ∷ b'o' ∷ b'w' ∷ [] else host

unfoldable pub receiver_name : Text → AppSettings → Text
receiver_name host s = value_or s.receiver_name (default_receiver_name host)

unfoldable pub set_receiver_name : Text → AppSettings → AppSettings
set_receiver_name name s = record s { receiver_name = some name }

unfoldable pub is_first_launch : AppSettings → Bool
is_first_launch s = not (value_or s.first_launch_complete false)

unfoldable pub set_first_launch_complete : AppSettings → AppSettings
set_first_launch_complete s = record s { first_launch_complete = some true }

unfoldable pub require_approval : AppSettings → Bool
require_approval s = value_or s.require_approval true

unfoldable pub set_require_approval : Bool → AppSettings → AppSettings
set_require_approval v s = record s { require_approval = some v }

unfoldable pub pin_enabled : AppSettings → Bool
pin_enabled s = value_or s.pin_enabled false

unfoldable pub set_pin_enabled : Bool → AppSettings → AppSettings
set_pin_enabled v s = record s { pin_enabled = some v }

unfoldable pub pin : AppSettings → Text
pin s = value_or s.pin []

unfoldable pub set_pin : Text → AppSettings → AppSettings
set_pin v s = record s { pin = some v }

unfoldable pub trusted_devices : AppSettings → List Text
trusted_devices s = value_or s.trusted_devices []

-- `QStringList::contains`.
abbrev pub contains : List Text → Text → Bool
contains list id = any (same_bytes id) list

unfoldable pub add_trusted_device : Text → AppSettings → AppSettings
unfolding trusted_devices
add_trusted_device id s =
    if contains (trusted_devices s) id
    then s
    else record s { trusted_devices = some (trusted_devices s ++ (id ∷ [])) }

-- `QStringList::removeAll`: the list that is left.
unfoldable pub remove_all : Text → List Text → List Text
remove_all id [] = []
remove_all id (x ∷ list) = if same_bytes id x then remove_all id list else x ∷ remove_all id list

unfoldable pub remove_trusted_device : Text → AppSettings → AppSettings
unfolding trusted_devices remove_all
remove_trusted_device id s =
    if ltb (length (remove_all id (trusted_devices s))) (length (trusted_devices s))
    then record s { trusted_devices = some (remove_all id (trusted_devices s)) }
    else s

unfoldable pub clear_trusted_devices : AppSettings → AppSettings
clear_trusted_devices s = record s { trusted_devices = some [] }
