-- ===== src/Security/Network.antt =====
-- Which addresses are local: `isLocalNetwork`, `isVpnInterface` and `localNetworkAddresses` of
-- src/security/SecurityManager.cpp. An address is any type, with the tests of QHostAddress.
pub mod Given
use air_show.Prelude.{
  Bool, true, false, not, ◌&&◌, ◌||◌, List, [], ◌∷◌, ◌++◌, map, if◌then◌else◌, any, ◌≡◌, refl, ◌∙◌,
  Bool-cases, inl, inr, arith,
}
use air_show.Settings.{Text}
use air_show.Dns.Wire.{lower}
use air_show.MiracastHandler.Rtsp.{starts_with}

-- `isLoopback`, `isPrivateUse` and `isLinkLocal`.
pub record Addresses (Address : Type 0) : Type 0 where
  pub is_loopback : Address → Bool
  pub is_private_use : Address → Bool
  pub is_link_local : Address → Bool

-- A network interface, with what its flags, its name and its address entries say.
pub record Interface (Address : Type 0) : Type 0 where
  pub is_loopback : Bool
  pub name : Text
  pub addresses : List Address

abbrev pub vpn_prefixes : List Text
vpn_prefixes =
    (b't' ∷ b'u' ∷ b'n' ∷ [])
    ∷ (b'w' ∷ b'g' ∷ [])
    ∷ (b'v' ∷ b'p' ∷ b'n' ∷ [])
    ∷ (b'p' ∷ b'p' ∷ b'p' ∷ [])
    ∷ (b't' ∷ b'a' ∷ b'p' ∷ [])
    ∷ []

-- The prefixes are ASCII, so that letter case is that of ASCII.
unfoldable pub is_vpn_interface : Text → Bool
is_vpn_interface name = any (λ prefix. starts_with prefix (map lower name)) vpn_prefixes

module _ {Address : Type 0} (qt : Addresses Address) where
  unfoldable pub is_local_network : Address → Bool
  is_local_network a =
      if qt.is_loopback a
      then true
      else if qt.is_private_use a
      then true
      else if qt.is_link_local a
      then true
      else false

  -- The inner loop, over the entries of an interface.
  unfoldable pub local_entries : List Address → List Address
  local_entries [] = []
  local_entries (a ∷ more) =
      if qt.is_private_use a || qt.is_link_local a
      then a ∷ local_entries more
      else local_entries more

  -- `localNetworkAddresses`, for the interfaces that `allInterfaces` gives.
  unfoldable pub local_network_addresses : List (Interface Address) → List Address
  unfolding local_entries is_vpn_interface
  local_network_addresses [] = []
  local_network_addresses (i ∷ is) =
      let rest = local_network_addresses is in
      if i.is_loopback
      then rest
      else if is_vpn_interface i.name
      then rest
      else local_entries i.addresses ++ rest

  any-append : (p : Address → Bool) (l k : List Address) → any p (l ++ k) ≡ (any p l || any p k)
  any-append p [] k = refl
  any-append p (a ∷ l) k = rw (any-append p l k) (ground arith)

  local_entries-IsLocal :
      (l : List Address) → any (λ a. not (is_local_network a)) (local_entries l) ≡ false
  unfolding local_entries is_local_network
  local_entries-IsLocal [] = refl
  local_entries-IsLocal (a ∷ l) = ground (arith, local_entries-IsLocal l)

  -- Every address that is given is one that `isLocalNetwork` accepts.
  pub is_local_network-local_network_addresses :
      (interfaces : List (Interface Address))
      → any (λ a. not (is_local_network a)) (local_network_addresses interfaces) ≡ false
  unfolding local_network_addresses
  is_local_network-local_network_addresses [] = refl
  is_local_network-local_network_addresses (i ∷ is) =
      let outside : Address → Bool = λ a. not (is_local_network a) in
      let rest = is_local_network-local_network_addresses is in
      elim (Bool-cases i.is_loopback) [
        | inl e ↦ rw e rest
        | inr e ↦ elim (Bool-cases (is_vpn_interface i.name)) [
          | inl v ↦ rw (e, v) rest
          | inr v ↦
              rw (e, v)
                (any-append outside (local_entries i.addresses) (local_network_addresses is)
                  ∙ rw (local_entries-IsLocal i.addresses, rest) refl)
        ]
      ]
