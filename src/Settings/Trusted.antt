-- ===== src/Settings/Trusted.antt =====
-- The list of trusted devices is a set of identifiers.
use air_show.Prelude.{
  ltb_irrefl, ◌≤◌, ◌<◌, ◌≡◌, refl, true, false, not, ◌&&◌, ◌||◌, List, [], ◌∷◌, ◌++◌, length,
  same_bytes, same_bytes_iff, same_bytes_refl, Bool-cases, inl, inr, arith, lt→ltb,
}
use air_show.Settings.{
  Text, AppSettings, contains, trusted_devices, add_trusted_device, remove_all,
  remove_trusted_device, clear_trusted_devices,
}

-- No identifier stands in the list twice.
abbrev pub IsDistinct : List Text → Type 0
IsDistinct [] = Unit
IsDistinct (x ∷ list) = (contains list x ≡ false) × IsDistinct list

contains-append :
    (list more : List Text) (id : Text)
    → contains (list ++ more) id ≡ (contains list id || contains more id)
contains-append [] more id = refl
contains-append (x ∷ list) more id = ground (arith, contains-append list more id)

contains-remove_all :
    (list : List Text) (id other : Text)
    → contains (remove_all id list) other ≡ (contains list other && not (same_bytes id other))
unfolding remove_all
contains-remove_all [] id other = refl
contains-remove_all (x ∷ list) id other = ground (
  arith,
  contains-remove_all list id other,
  same_bytes_iff id x,
  same_bytes_iff other x,
  same_bytes_iff id other,
)

length-remove_all :
    (list : List Text) (id : Text)
    → (length (remove_all id list) ≤ length list)
      × (contains list id ≡ true → length (remove_all id list) < length list)
unfolding remove_all
length-remove_all [] id = (omega arith, λ h. ground arith)
length-remove_all (x ∷ list) id = ground (arith, length-remove_all list id)

-- `removeAll` leaves a list without the identifier as it is.
remove_all-absent :
    (list : List Text) (id : Text) → contains list id ≡ false → remove_all id list ≡ list
unfolding remove_all
remove_all-absent [] id h = refl
remove_all-absent (x ∷ list) id h = ground (arith, remove_all-absent list id)

-- After a device is added exactly it and those trusted before are trusted.
pub contains-add_trusted_device :
    (s : AppSettings) (id other : Text)
    → contains (trusted_devices (add_trusted_device id s)) other
      ≡ (contains (trusted_devices s) other || same_bytes other id)
unfolding trusted_devices add_trusted_device
contains-add_trusted_device s id other = ground (
  arith,
  contains-append (trusted_devices s) (id ∷ []) other,
  same_bytes_iff other id,
  same_bytes_refl id,
)

-- After a device is removed exactly the others are trusted that were trusted before.
pub contains-remove_trusted_device :
    (s : AppSettings) (id other : Text)
    → contains (trusted_devices (remove_trusted_device id s)) other
      ≡ (contains (trusted_devices s) other && not (same_bytes id other))
unfolding remove_trusted_device
contains-remove_trusted_device s id other =
    let list = trusted_devices s in
    let gone = contains-remove_all list id other in
    elim (Bool-cases (contains list id)) [
      | inl h ↦
          rw (lt→ltb (length (remove_all id list)) (length list) ((length-remove_all list id).1 h))
            gone
      | inr h ↦
          rw (remove_all-absent list id h)
            (rw (ltb_irrefl (length list)) (rw (remove_all-absent list id h) at gone))
    ]

IsDistinct-append :
    (list : List Text) (id : Text)
    → IsDistinct list
    → contains list id ≡ false
    → IsDistinct (list ++ (id ∷ []))
IsDistinct-append [] id d h = (refl, tt)
IsDistinct-append (x ∷ list) id d h = ground (
  arith,
  contains-append list (id ∷ []) x,
  same_bytes_iff id x,
  same_bytes_iff x id,
  IsDistinct-append list id,
)

IsDistinct-remove_all :
    (list : List Text) (id : Text) → IsDistinct list → IsDistinct (remove_all id list)
unfolding remove_all
IsDistinct-remove_all [] id d = tt
IsDistinct-remove_all (x ∷ list) id d =
    ground (arith, contains-remove_all list id x, IsDistinct-remove_all list id)

-- No operation on the trusted list makes it hold an identifier twice.
pub trusted_devices-IsDistinct :
    (s : AppSettings) (id : Text)
    → IsDistinct (trusted_devices s)
    → IsDistinct (trusted_devices (add_trusted_device id s))
      × IsDistinct (trusted_devices (remove_trusted_device id s))
      × IsDistinct (trusted_devices (clear_trusted_devices s))
unfolding trusted_devices add_trusted_device remove_trusted_device clear_trusted_devices
trusted_devices-IsDistinct s id d = ground (
  arith,
  IsDistinct-append (trusted_devices s) id d,
  IsDistinct-remove_all (trusted_devices s) id d,
)
