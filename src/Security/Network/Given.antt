-- ===== src/Security/Network/Given.antt =====
-- Which addresses `localNetworkAddresses` gives, said without its loops.
use air_show.Prelude.{
  ℕ, ◌≤◌, All, ◌⊎◌, ◌≡◌, ◌↔◌, refl, sym, Bool, true, false, ◌||◌, ◌==◌, List, [], ◌∷◌, ◌++◌, map,
  if◌then◌else◌, inl, inr, arith,
}
use air_show.Settings.{Text}
use air_show.Dns.Wire.{lower}
use air_show.Dns.Name.Fold.{IsCapitalOf}
use air_show.MiracastHandler.Rtsp.{starts_with}
use air_show.Security.Network.{
  Addresses, Interface, is_vpn_interface, local_entries, local_network_addresses,
}

-- The name begins with this word of small letters, in capital or small letters.
abbrev pub Begins : Text → Text → Type 0
Begins [] name = Unit
Begins (w ∷ word) [] = ⊥
Begins (w ∷ word) (c ∷ name) = ((c ≡ w) ⊎ IsCapitalOf c w) × Begins word name

-- A name in "tun", "wg", "vpn", "ppp" or "tap".
abbrev pub IsVpnName : Text → Type 0
IsVpnName name =
    Begins (b't' ∷ b'u' ∷ b'n' ∷ []) name
    ⊎ Begins (b'w' ∷ b'g' ∷ []) name
    ⊎ Begins (b'v' ∷ b'p' ∷ b'n' ∷ []) name
    ⊎ Begins (b'p' ∷ b'p' ∷ b'p' ∷ []) name
    ⊎ Begins (b't' ∷ b'a' ∷ b'p' ∷ []) name

begins_letter :
    (w c : ℕ) → (97 ≤ w) × (w ≤ 122) → ((w == lower c) ≡ true) ↔ ((c ≡ w) ⊎ IsCapitalOf c w)
unfolding lower
begins_letter w c small = ground arith

abbrev IsSmall : Text → Type 0
IsSmall word = All (λ w. (97 ≤ w) × (w ≤ 122)) word

begins :
    (word name : Text)
    → IsSmall word
    → (starts_with word (map lower name) ≡ true) ↔ Begins word name
begins [] name small = (λ e. tt, λ u. refl)
begins (w ∷ word) [] small = ground arith
begins (w ∷ word) (c ∷ name) small =
    ground (arith, begins_letter w c small.0, begins word name small.1)

either : (b c : Bool) {P Q : Type 0} → (b ≡ true) ↔ P → (c ≡ true) ↔ Q → ((b || c) ≡ true) ↔ (P ⊎ Q)
either true c p q = (λ e. inl (p.0 refl), λ u. refl)
either false c p q =
    (λ e. inr (q.0 e), λ u. elim u [ inl x ↦ absurd (ground (arith, p.1 x)) | inr y ↦ q.1 y ])

last : (b : Bool) {P : Type 0} → (b ≡ true) ↔ P → ((b || false) ≡ true) ↔ P
last true p = p
last false p = p

vpn_name : (name : Text) → (is_vpn_interface name ≡ true) ↔ IsVpnName name
unfolding is_vpn_interface
vpn_name name =
    let three : (a b c : ℕ)
        → IsSmall (a ∷ b ∷ c ∷ [])
        → (starts_with (a ∷ b ∷ c ∷ []) (map lower name) ≡ true) ↔ Begins (a ∷ b ∷ c ∷ []) name =
      λ a b c small. begins (a ∷ b ∷ c ∷ []) name small in
    either _ _ (three b't' b'u' b'n' (ground arith)) (
      either _ _ (begins (b'w' ∷ b'g' ∷ []) name (ground arith)) (
        either _ _ (three b'v' b'p' b'n' (ground arith)) (
          either _ _ (three b'p' b'p' b'p' (ground arith))
            (last _ (three b't' b'a' b'p' (ground arith))))))

module _ {Address : Type 0} (qt : Addresses Address) where
  -- The address stands in the list.
  abbrev pub Stands : Address → List Address → Type 0
  Stands a [] = ⊥
  Stands a (x ∷ xs) = (x ≡ a) ⊎ Stands a xs

  abbrev pub IsLocal : Address → Type 0
  IsLocal a = (qt.is_private_use a ≡ true) ⊎ (qt.is_link_local a ≡ true)

  -- The address is a local one of an interface that is neither loopback nor named like a VPN.
  abbrev pub IsGiven : Address → List (Interface Address) → Type 0
  IsGiven a [] = ⊥
  IsGiven a (i ∷ is) =
      ((i.is_loopback ≡ false) × ¬ IsVpnName i.name × Stands a i.addresses × IsLocal a)
      ⊎ IsGiven a is

  Stands-append : (a : Address) (l k : List Address) → Stands a (l ++ k) ↔ (Stands a l ⊎ Stands a k)
  Stands-append a [] k = (λ s. inr s, λ u. elim u [ inl x ↦ absurd x | inr s ↦ s ])
  Stands-append a (x ∷ l) k =
      let rec = Stands-append a l k in
      (
        λ s. elim s [
          | inl e ↦ inl (inl e)
          | inr t ↦ elim (rec.0 t) [ inl u ↦ inl (inr u) | inr u ↦ inr u ]
        ],
        λ s. elim s [
          | inl t ↦ elim t [ inl e ↦ inl e | inr u ↦ inr (rec.1 (inl u)) ]
          | inr u ↦ inr (rec.1 (inr u))
        ],
      )

  moved : (x a : Address) → x ≡ a → IsLocal x → IsLocal a
  moved x a e h = rw⁻¹ e h

  -- One entry of an interface.
  entry :
      (a x : Address) (b : Bool) (r l : List Address)
      → (b ≡ true) ↔ IsLocal x
      → Stands a r ↔ (Stands a l × IsLocal a)
      → Stands a (if b then x ∷ r else r) ↔ (((x ≡ a) ⊎ Stands a l) × IsLocal a)
  entry a x true r l local rest = (
    λ s. elim s [
      | inl e ↦ (inl e, moved x a e (local.0 refl))
      | inr t ↦ (inr (rest.0 t).0, (rest.0 t).1)
    ],
    λ u. elim u.0 [ inl e ↦ inl e | inr s ↦ inr (rest.1 (s, u.1)) ],
  )
  entry a x false r l local rest = (
    λ s. (inr (rest.0 s).0, (rest.0 s).1),
    λ u. elim u.0 [
      | inl e ↦ absurd (ground (arith, local.1 (moved a x (sym e) u.1)))
      | inr s ↦ rest.1 (s, u.1)
    ],
  )

  Stands-local_entries :
      (a : Address) (l : List Address) → Stands a (local_entries qt l) ↔ (Stands a l × IsLocal a)
  unfolding local_entries
  Stands-local_entries a [] = (λ s. absurd s, λ u. u.0)
  Stands-local_entries a (x ∷ l) =
      entry a x (qt.is_private_use x || qt.is_link_local x) (local_entries qt l) l
        (either _ _ (λ e. e, λ e. e) (λ e. e, λ e. e)) (Stands-local_entries a l)

  -- One interface.
  interface :
      (a : Address) (loop vpn : Bool) (entries rest : List Address) {V S L G : Type 0}
      → (vpn ≡ true) ↔ V
      → Stands a entries ↔ (S × L)
      → Stands a rest ↔ G
      → Stands a (if loop then rest else if vpn then rest else entries ++ rest)
        ↔ (((loop ≡ false) × ¬ V × S × L) ⊎ G)
  interface a true vpn entries rest v en more =
      (λ s. inr (more.0 s), λ u. elim u [ inl x ↦ absurd (ground (arith, x.0)) | inr g ↦ more.1 g ])
  interface a false true entries rest v en more =
      (λ s. inr (more.0 s), λ u. elim u [ inl x ↦ absurd (x.1 (v.0 refl)) | inr g ↦ more.1 g ])
  interface a false false entries rest v en more =
      let app = Stands-append a entries rest in
      (
        λ s. elim (app.0 s) [
          | inl e ↦ inl (refl, λ w. absurd (ground (arith, v.1 w)), (en.0 e).0, (en.0 e).1)
          | inr t ↦ inr (more.0 t)
        ],
        λ u. elim u [ inl x ↦ app.1 (inl (en.1 (x.2, x.3))) | inr g ↦ app.1 (inr (more.1 g)) ],
      )

  -- `localNetworkAddresses` gives exactly the private and link-local addresses of the interfaces that are
  -- neither loopback nor named like a VPN, which is that the name begins with tun, wg, vpn, ppp or tap
  -- in capital or small letters.
  pub local_network_addresses-IsGiven :
      (a : Address) (interfaces : List (Interface Address))
      → Stands a (local_network_addresses qt interfaces) ↔ IsGiven a interfaces
  unfolding local_network_addresses
  local_network_addresses-IsGiven a [] = (λ s. s, λ s. s)
  local_network_addresses-IsGiven a (i ∷ is) =
      interface a i.is_loopback (is_vpn_interface i.name) (local_entries qt i.addresses)
        (local_network_addresses qt is) (vpn_name i.name) (Stands-local_entries a i.addresses)
        (local_network_addresses-IsGiven a is)
