-- ===== src/Dnssd/Records.antt =====
-- The two service records of src/airplay/airshow_dnssd.c: that they are always built, and what their keys
-- say.
use mathlib.Core.List.{append_assoc}
use air_show.Prelude.{
  same_bytes_refl, ℕ, suc, ◌+◌, ◌≡◌, ◌≢◌, refl, sym, ap, ◌∙◌, ◌⊎◌, inl, inr, true, false, List, [],
  ◌∷◌, ◌++◌, Option, none, some, ltb, ◌||◌, Bytes, length, All-append, same_bytes, same_bytes_iff,
  arith, Bool-cases, drop-behind,
}
use air_show.Settings.{Text}
use air_show.Dnssd.{
  sets_before, sets_between, sets_behind, last_sets, Globals, Dnssd, raop_sets, airplay_sets,
  access_sets, build_raop_txt, build_airplay_txt, sf_key, vs_key, vn_key, pk_key, dnssd_pk,
}
use air_show.Dnssd.Txt.{
  IsKey, AreKeys, IsTxt, encode_entries, key_of, without_key, set_entry, set_all, lookup,
  txt_set_all-encode_entries,
}

key_of-entry : (key value : Bytes) → IsKey key → key_of (key ++ (b'=' ∷ value)) ≡ key
key_of-entry [] value k = refl
key_of-entry (c ∷ key) value k = rw k.0 (ap (◌∷◌ c) (key_of-entry key value k.1))

lookup-without_key : (key : Bytes) (es : List Bytes) → lookup key (without_key key es) ≡ none
lookup-without_key key [] = refl
lookup-without_key key (e ∷ es) = elim (Bool-cases (same_bytes (key_of e) key)) [
  | inl x ↦ rw x (lookup-without_key key es)
  | inr x ↦ rw x (rw x (lookup-without_key key es))
]

lookup-without_key_other :
    (key other : Bytes) (es : List Bytes)
    → key ≢ other
    → lookup key (without_key other es) ≡ lookup key es
lookup-without_key_other key other [] ne = refl
lookup-without_key_other key other (e ∷ es) ne = elim (Bool-cases (same_bytes (key_of e) other)) [
  | inl x ↦ elim (Bool-cases (same_bytes (key_of e) key)) [
    | inl y ↦
        absurd
          (ne (sym ((same_bytes_iff (key_of e) key).0 y) ∙ (same_bytes_iff (key_of e) other).0 x))
    | inr y ↦ rw (x, y) (lookup-without_key_other key other es ne)
  ]
  | inr x ↦ elim (Bool-cases (same_bytes (key_of e) key)) [
    | inl y ↦ rw (x, y) refl
    | inr y ↦ rw (x, y) (lookup-without_key_other key other es ne)
  ]
]

abbrev or_else : Option Bytes → Option Bytes → Option Bytes
or_else none b = b
or_else (some a) b = some a

or_else-none : (a : Option Bytes) → or_else a none ≡ a
or_else-none none = refl
or_else-none (some a) = refl

lookup-append :
    (key : Bytes) (es fs : List Bytes)
    → lookup key (es ++ fs) ≡ or_else (lookup key es) (lookup key fs)
lookup-append key [] fs = refl
lookup-append key (e ∷ es) fs = elim (Bool-cases (same_bytes (key_of e) key)) [
  | inl x ↦ rw x refl
  | inr x ↦ rw x (lookup-append key es fs)
]

lookup-entry :
    (key value : Bytes) → IsKey key → lookup key ((key ++ (b'=' ∷ value)) ∷ []) ≡ some value
lookup-entry key value k =
    rw (key_of-entry key value k, same_bytes_refl key)
      (ap some (drop-behind key (b'=' ∷ value) 1 (suc (length key)) (omega arith)))

-- After a set the key has the value that was set, or none where the new entry does not fit.
pub lookup-set_entry :
    (key value : Bytes) (es : List Bytes)
    → IsKey key
    → (lookup key (set_entry key value es) ≡ some value)
      ⊎ (lookup key (set_entry key value es) ≡ none)
lookup-set_entry key value es k =
    let kept = without_key key es in
    let entry = key ++ (b'=' ∷ value) in
    let gone = lookup-without_key key es in
    elim (Bool-cases
      (ltb 255 (length entry) || ltb 1024 (length (encode_entries kept) + 1 + length entry))) [
        | inl e ↦ inr (rw e gone)
        | inr e ↦
            inl (rw e (lookup-append key kept (entry ∷ []) ∙ rw gone (lookup-entry key value k)))
      ]

-- A set of a key without `=` leaves the value of every other key alone.
pub lookup-set_entry_other :
    (key other value : Bytes) (es : List Bytes)
    → IsKey other
    → key ≢ other
    → lookup key (set_entry other value es) ≡ lookup key es
lookup-set_entry_other key other value es k ne =
    let kept = without_key other es in
    let entry = other ++ (b'=' ∷ value) in
    let same = lookup-without_key_other key other es ne in
    let absent : lookup key (entry ∷ []) ≡ none =
      rw (key_of-entry other value k) (elim (Bool-cases (same_bytes other key)) [
        | inl x ↦ absurd (ne (sym ((same_bytes_iff other key).0 x)))
        | inr x ↦ rw x refl
      ]) in
    elim (Bool-cases
      (ltb 255 (length entry) || ltb 1024 (length (encode_entries kept) + 1 + length entry))) [
        | inl e ↦ rw e same
        | inr e ↦
            rw e (
              lookup-append key kept (entry ∷ [])
              ∙ rw (same, absent) (or_else-none (lookup key es)))
      ]

true_not_false : true ≡ false → ⊥
true_not_false e = cc

different : (a b : Bytes) → same_bytes a b ≡ false → a ≢ b
different a b e = λ same. absurd (true_not_false (sym ((same_bytes_iff a b).1 same) ∙ e))

set_all-append :
    (a b : List (Text × Text)) (es : List Bytes) → set_all (a ++ b) es ≡ set_all b (set_all a es)
set_all-append [] b es = refl
set_all-append ((key, value) ∷ a) b es = set_all-append a b (set_entry key value es)

access_sets-AreKeys : (pin_pw : ℕ) (sf : Text) → AreKeys (access_sets pin_pw sf)
access_sets-AreKeys pin_pw sf = ground arith

raop_sets-split :
    (g : Globals) (d : Dnssd)
    → raop_sets g d
      ≡ (sets_before g d ++ (access_sets d.pin_pw g.raop_sf ++ sets_between g d)) ++ last_sets g d
raop_sets-split g d = simp append_assoc

raop_sets-AreKeys : (g : Globals) (d : Dnssd) → AreKeys (raop_sets g d)
raop_sets-AreKeys g d =
    let tail = access_sets d.pin_pw g.raop_sf ++ sets_behind g d in
    All-append (λ s. IsKey s.0) (sets_before g d) tail
      (
        (refl, (refl, tt)),
        (
          (refl, (refl, tt)),
          (
            (refl, (refl, tt)),
            (
              (refl, (refl, tt)),
              (
                (refl, (refl, tt)),
                (
                  (refl, (refl, tt)),
                  ((refl, (refl, tt)), ((refl, (refl, tt)), ((refl, (refl, (refl, tt))), tt))),
                ),
              ),
            ),
          ),
        ),
      )
      (All-append (λ s. IsKey s.0) (access_sets d.pin_pw g.raop_sf) (sets_behind g d)
        (access_sets-AreKeys d.pin_pw g.raop_sf)
        (
          (refl, (refl, tt)),
          (
            (refl, (refl, tt)),
            (
              (refl, (refl, tt)),
              (
                (refl, (refl, tt)),
                (
                  (refl, (refl, (refl, (refl, (refl, (refl, (refl, tt))))))),
                  (
                    (refl, (refl, tt)),
                    ((refl, (refl, tt)), ((refl, (refl, tt)), ((refl, (refl, tt)), tt))),
                  ),
                ),
              ),
            ),
          ),
        ))

airplay_sets-AreKeys : (g : Globals) (d : Dnssd) → AreKeys (airplay_sets g d)
airplay_sets-AreKeys g d = (
  (refl, (refl, (refl, (refl, (refl, (refl, (refl, (refl, tt)))))))),
  (
    (refl, (refl, (refl, (refl, (refl, (refl, (refl, (refl, tt)))))))),
    (
      (refl, (refl, tt)),
      (
        (refl, (refl, (refl, (refl, (refl, tt))))),
        (
          (refl, (refl, (refl, (refl, (refl, tt))))),
          (
            (refl, (refl, tt)),
            (
              (refl, (refl, tt)),
              (
                (refl, (refl, (refl, (refl, (refl, (refl, (refl, tt))))))),
                ((refl, (refl, tt)), tt),
              ),
            ),
          ),
        ),
      ),
    ),
  ),
)

-- The RAOP record is built for every server, whatever its strings: its entries are those of the sets in
-- their order, each within 255 bytes, and all within 1024.
pub build_raop_txt-encode_entries :
    (g : Globals) (d : Dnssd)
    → (build_raop_txt g d ≡ some (encode_entries (set_all (raop_sets g d) [])))
      × IsTxt (set_all (raop_sets g d) [])
unfolding build_raop_txt
build_raop_txt-encode_entries g d =
    txt_set_all-encode_entries (raop_sets g d) [] (raop_sets-AreKeys g d)
      (record { entries = tt; bounded = omega arith })

-- The AirPlay record is built for every server, whatever its strings: its entries are those of the sets in
-- their order, each within 255 bytes, and all within 1024.
pub build_airplay_txt-encode_entries :
    (g : Globals) (d : Dnssd)
    → (build_airplay_txt g d ≡ some (encode_entries (set_all (airplay_sets g d) [])))
      × IsTxt (set_all (airplay_sets g d) [])
unfolding build_airplay_txt
build_airplay_txt-encode_entries g d =
    txt_set_all-encode_entries (airplay_sets g d) [] (airplay_sets-AreKeys g d)
      (record { entries = tt; bounded = omega arith })

-- Whatever `pin_pw` asks for, the status flags of the RAOP record are the default ones, or are left out
-- where they do not fit: those that the `switch` on `pin_pw` chooses are replaced.
pub raop-status_flags :
    (g : Globals) (d : Dnssd)
    → (lookup sf_key (set_all (raop_sets g d) []) ≡ some g.raop_sf)
      ⊎ (lookup sf_key (set_all (raop_sets g d) []) ≡ none)
raop-status_flags g d =
    let before = sets_before g d ++ (access_sets d.pin_pw g.raop_sf ++ sets_between g d) in
    let es = set_all before [] in
    let es1 = set_entry sf_key g.raop_sf es in
    let es2 = set_entry vs_key g.raop_vs es1 in
    let es3 = set_entry vn_key g.raop_vn es2 in
    let whole : set_all (raop_sets g d) [] ≡ set_entry pk_key (dnssd_pk d) es3 =
      ap (λ sets. set_all sets []) (raop_sets-split g d)
      ∙ set_all-append before (last_sets g d) [] in
    let kept : lookup sf_key (set_all (raop_sets g d) []) ≡ lookup sf_key es1 =
      ap (lookup sf_key) whole
      ∙ lookup-set_entry_other sf_key pk_key (dnssd_pk d) es3 (refl, (refl, tt))
          (different sf_key pk_key refl)
      ∙ lookup-set_entry_other sf_key vn_key g.raop_vn es2 (refl, (refl, tt))
          (different sf_key vn_key refl)
      ∙ lookup-set_entry_other sf_key vs_key g.raop_vs es1 (refl, (refl, tt))
          (different sf_key vs_key refl) in
    elim (lookup-set_entry sf_key g.raop_sf es (refl, (refl, tt))) [
      | inl e ↦ inl (kept ∙ e)
      | inr e ↦ inr (kept ∙ e)
    ]
