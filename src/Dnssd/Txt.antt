-- ===== src/Dnssd/Txt.antt =====
-- A TXT record as the list of its entries: what `txt_set` of src/airplay/airshow_dnssd.c does to them.
use air_show.Prelude.{
  All-append, leb→le, lt→ltb, ltb_irrefl, get_or, drop-behind, get_or-behind, take-append_le,
  get_or-append_lt, ℕ, zero, suc, ◌+◌, ◌≤◌, ◌<◌, ◌≡◌, refl, sym, ap, ◌∙◌, inl, inr, Bool, true,
  false, List, [], ◌∷◌, ◌++◌, Option, none, some, if◌then◌else◌, ltb, leb, ◌==◌, ◌&&◌, ◌||◌, Bytes,
  length, take, drop, All, same_bytes, ==_iff, ==_refl, arith, Bool-cases, length-append,
  take-append, drop-append,
}
use mathlib.Core.List.{append_assoc, append-nil}
use air_show.Settings.{Text}
use air_show.Dnssd.{key_at, remove_key, append_entry, txt_set, txt_set_all}
use air_show.Dns.Wire.{byte_at}

abbrev pub IsEntry : Bytes → Type 0
IsEntry e = length e < 256

abbrev pub encode_entries : List Bytes → Bytes
encode_entries [] = []
encode_entries (e ∷ es) = length e ∷ (e ++ encode_entries es)

-- The part of an entry in front of the first `=`.
abbrev pub key_of : Bytes → Bytes
key_of [] = []
key_of (c ∷ e) = if c == b'=' then [] else c ∷ key_of e

-- A key has no `=`.
abbrev pub IsKey : Bytes → Type 0
IsKey key = All (λ c. (c == b'=') ≡ false) key

abbrev pub without_key : Bytes → List Bytes → List Bytes
without_key key [] = []
without_key key (e ∷ es) =
    if same_bytes (key_of e) key then without_key key es else e ∷ without_key key es

-- What a set does to the entries: those of the key go, and the new one comes last if it fits.
abbrev pub add_entry : Bytes → Bytes → List Bytes → List Bytes
add_entry key value es =
    let entry = key ++ (b'=' ∷ value) in
    if ltb 255 (length entry) || ltb 1024 (length (encode_entries es) + 1 + length entry)
    then es
    else es ++ (entry ∷ [])

abbrev pub set_entry : Bytes → Bytes → List Bytes → List Bytes
set_entry key value es = add_entry key value (without_key key es)

abbrev pub lookup : Bytes → List Bytes → Option Bytes
lookup key [] = none
lookup key (e ∷ es) =
    if same_bytes (key_of e) key then some (drop (suc (length key)) e) else lookup key es

key_shift :
    (k n : ℕ) (same at : Bool)
    → (leb (suc k) (suc n) && (same && (suc n == suc k || at)))
      ≡ (leb k n && (same && (n == k || at)))
key_shift k n same at = ground arith

-- The test on the bytes is the test on the key of the entry.
key_test :
    (key e : Bytes)
    → IsKey key
    → (leb (length key) (length e)
        && (same_bytes (take (length key) e) key
            && (length e == length key || byte_at e (length key) == b'=')))
      ≡ same_bytes (key_of e) key
key_test [] [] k = refl
key_test [] (c ∷ e) k = ground arith
key_test (c ∷ key) [] k = ground arith
key_test (c ∷ key) (d ∷ e) k =
    let rest = key_test key e k.1 in
    elim (Bool-cases (d == c)) [
      | inl e1 ↦
          let same : d ≡ c = (==_iff d c).0 e1 in
          rw same (
            rw (k.0, ==_refl c)
              (key_shift (length key) (length e) (same_bytes (take (length key) e) key)
                  (byte_at e (length key) == b'=')
                ∙ rest))
      | inr e1 ↦ elim (Bool-cases (d == b'=')) [
        | inl e2 ↦ rw (e1, e2) (ground arith)
        | inr e2 ↦ rw (e1, e2) (ground arith)
      ]
    ]

-- The test of `txt_set` at the start of an entry.
key_at-entry :
    (before key e after : Bytes)
    → IsKey key
    → key_at (before ++ (length e ∷ (e ++ after))) key (length before) (length e)
      ≡ same_bytes (key_of e) key
unfolding key_at
key_at-entry before key e after k =
    let n = length before in
    let m = length key in
    let text = e ++ after in
    rw
      (
        drop-behind before (length e ∷ text) 1 (n + 1) refl,
        get_or-behind before (length e ∷ text) (1 + m) (n + 1 + m) 0 (omega arith),
      )
      (elim (Bool-cases (leb m (length e))) [
        | inr e1 ↦ rw (← key_test key e k) (ground (arith, e1))
        | inl e1 ↦ elim (Bool-cases (length e == m)) [
          | inl e2 ↦
              rw (take-append_le m e after (leb→le m (length e) e1))
                (rw (← key_test key e k) (ground (arith, e1, e2)))
          | inr e2 ↦
              let at : get_or (length e ∷ text) (1 + m) 0 ≡ get_or e m 0 =
                get_or-behind (length e ∷ []) text m (1 + m) 0 refl
                ∙ get_or-append_lt m e after 0 (ground (arith, e1, e2)) in
              rw (take-append_le m e after (leb→le m (length e) e1), at) (key_test key e k)
        ]
      ])

remove_key-stop :
    (fuel : ℕ) (key txt : Bytes) (pos : ℕ)
    → ltb pos (length txt) ≡ false
    → remove_key (suc fuel) key pos txt ≡ some txt
unfolding remove_key
remove_key-stop fuel key txt pos e = rw e refl

remove_key-cut :
    (fuel : ℕ) (key txt shorter : Bytes) (pos : ℕ)
    → ltb pos (length txt) ≡ true
    → key_at txt key pos (byte_at txt pos) ≡ true
    → take pos txt ++ drop (pos + 1 + byte_at txt pos) txt ≡ shorter
    → remove_key (suc fuel) key pos txt ≡ remove_key fuel key pos shorter
unfolding remove_key
remove_key-cut fuel key txt shorter pos e1 e2 e3 = rw (e1, e2) (ap (remove_key fuel key pos) e3)

remove_key-skip :
    (fuel : ℕ) (key txt : Bytes) (pos next : ℕ)
    → ltb pos (length txt) ≡ true
    → key_at txt key pos (byte_at txt pos) ≡ false
    → pos + 1 + byte_at txt pos ≡ next
    → remove_key (suc fuel) key pos txt ≡ remove_key fuel key next txt
unfolding remove_key
remove_key-skip fuel key txt pos next e1 e2 e3 =
    rw (e1, e2) (ap (λ n. remove_key fuel key n txt) e3)

remove_key-encode_entries :
    (fuel : ℕ) (key : Bytes) (es : List Bytes) (before : Bytes)
    → IsKey key
    → All IsEntry es
    → length es < fuel
    → remove_key fuel key (length before) (before ++ encode_entries es)
      ≡ some (before ++ encode_entries (without_key key es))
remove_key-encode_entries zero key es before k good lt = elim lt [ ]
remove_key-encode_entries (suc fuel) key [] before k good lt =
    let n : length (before ++ []) ≡ length before = ap length (append-nil before) in
    remove_key-stop fuel key (before ++ []) (length before) (rw n (ltb_irrefl (length before)))
remove_key-encode_entries (suc fuel) key (e ∷ es) before k good lt =
    let tail = encode_entries es in
    let here = length e ∷ e in
    let txt = before ++ (length e ∷ (e ++ tail)) in
    let n = length before in
    let len : byte_at txt n ≡ length e =
      get_or-behind before (length e ∷ (e ++ tail)) 0 n 0 (omega arith) in
    let test : key_at txt key n (byte_at txt n) ≡ same_bytes (key_of e) key =
      ap (key_at txt key n) len ∙ key_at-entry before key e tail k in
    let size = length-append before here in
    let more : ltb n (length txt) ≡ true =
      lt→ltb n (length txt) (omega (arith, length-append before (length e ∷ (e ++ tail)))) in
    let next : n + 1 + byte_at txt n ≡ length (before ++ here) = omega (arith, len, size) in
    let moved : before ++ (length e ∷ (e ++ tail)) ≡ (before ++ here) ++ tail =
      sym (append_assoc before here tail) in
    elim (Bool-cases (same_bytes (key_of e) key)) [
      | inl same ↦
          let behind : drop (n + 1 + byte_at txt n) txt ≡ tail =
            rw (next, moved) (drop-append (before ++ here) tail) in
          let cut : take n txt ++ drop (n + 1 + byte_at txt n) txt ≡ before ++ tail =
            rw behind (ap (λ t. t ++ tail) (take-append before (length e ∷ (e ++ tail)))) in
          remove_key-cut fuel key txt (before ++ tail) n more (test ∙ same) cut
          ∙ rw same (remove_key-encode_entries fuel key es before k good.1 (omega arith))
      | inr other ↦
          remove_key-skip fuel key txt n (length (before ++ here)) more (test ∙ other) next
          ∙ ap (remove_key fuel key (length (before ++ here))) moved
          ∙ remove_key-encode_entries fuel key es (before ++ here) k good.1 (omega arith)
          ∙ rw other (ap some (append_assoc before here (encode_entries (without_key key es))))
    ]

length_le : (es : List Bytes) → length es ≤ length (encode_entries es)
length_le [] = omega arith
length_le (e ∷ es) = omega (arith, length_le es, length-append e (encode_entries es))

encode_entries-last :
    (es : List Bytes) (e : Bytes)
    → encode_entries (es ++ (e ∷ [])) ≡ encode_entries es ++ (length e ∷ e)
encode_entries-last [] e = ap (◌∷◌ (length e)) (append-nil e)
encode_entries-last (d ∷ es) e =
    rw (encode_entries-last es e)
      (sym (append_assoc (length d ∷ d) (encode_entries es) (length e ∷ e)))

-- `append_entry` on the bytes is the end of `set_entry` on the entries.
append_entry-encode_entries :
    (key value : Bytes) (kept : List Bytes)
    → append_entry key value (encode_entries kept) ≡ encode_entries (add_entry key value kept)
append_entry-encode_entries key value kept =
    let entry = key ++ (b'=' ∷ value) in
    let size : length entry ≡ length key + 1 + length value =
      omega (arith, length-append key (b'=' ∷ value)) in
    rw size
      (elim (Bool-cases (
        ltb 255 (length key + 1 + length value)
        || ltb 1024 (length (encode_entries kept) + 1 + (length key + 1 + length value)))) [
          | inl e ↦ rw e refl
          | inr e ↦ rw e (sym (encode_entries-last kept entry ∙ rw size refl))
        ])

txt_set-kept :
    (key value txt kept : Bytes)
    → remove_key (suc (length txt)) key 0 txt ≡ some kept
    → txt_set key value txt ≡ some (append_entry key value kept)
unfolding txt_set
txt_set-kept key value txt kept e = rw (e, txt_set) refl

-- On a record of well-formed entries `txt_set` does to the list of entries what `set_entry` does: the
-- entries of the key go, and the new one comes last if it fits.
pub txt_set-encode_entries :
    (key value : Bytes) (es : List Bytes)
    → IsKey key
    → All IsEntry es
    → txt_set key value (encode_entries es) ≡ some (encode_entries (set_entry key value es))
txt_set-encode_entries key value es k good =
    txt_set-kept key value (encode_entries es) (encode_entries (without_key key es)) (
      remove_key-encode_entries (suc (length (encode_entries es))) key es [] k good
        (omega (arith, length_le es)))
    ∙ ap some (append_entry-encode_entries key value (without_key key es))

-- A record that the functions of the file build.
pub record IsTxt (es : List Bytes) : Type 0 where
  pub entries : All IsEntry es
  pub bounded : length (encode_entries es) ≤ 1024

without_key-IsTxt :
    (key : Bytes) (es : List Bytes)
    → All IsEntry es
    → All IsEntry (without_key key es)
      × (length (encode_entries (without_key key es)) ≤ length (encode_entries es))
without_key-IsTxt key [] good = (good, omega arith)
without_key-IsTxt key (e ∷ es) good =
    let rest = without_key-IsTxt key es good.1 in
    let size = length-append e (encode_entries es) in
    elim (Bool-cases (same_bytes (key_of e) key)) [
      | inl x ↦ rw x (rest.0, omega (arith, rest.1, size))
      | inr x ↦ rw x (
        (good.0, rest.0),
        omega (arith, rest.1, size, length-append e (encode_entries (without_key key es))),
      )
    ]

fits :
    (es : List Bytes) (entry : Bytes)
    → (ltb 255 (length entry) || ltb 1024 (length (encode_entries es) + 1 + length entry)) ≡ false
    → length (encode_entries es) + 1 + length entry ≤ 1024
fits es entry e = ground (arith, e)

add_entry-IsTxt : (key value : Bytes) (es : List Bytes) → IsTxt es → IsTxt (add_entry key value es)
add_entry-IsTxt key value es good =
    let entry = key ++ (b'=' ∷ value) in
    elim (Bool-cases
      (ltb 255 (length entry) || ltb 1024 (length (encode_entries es) + 1 + length entry))) [
        | inl e ↦ rw e good
        | inr e ↦ rw e (record {
          entries = All-append IsEntry es (entry ∷ []) good.entries (ground (arith, e), tt);
          bounded = rw (encode_entries-last es entry) (
              omega
                (arith, fits es entry e, length-append (encode_entries es) (length entry ∷ entry)));
        })
      ]

-- A record stays within its 1024 bytes, and its entries within the 255 that a length byte can say.
pub set_entry-IsTxt :
    (key value : Bytes) (es : List Bytes) → IsTxt es → IsTxt (set_entry key value es)
set_entry-IsTxt key value es good =
    let kept = without_key-IsTxt key es good.entries in
    add_entry-IsTxt key value (without_key key es)
      (record { entries = kept.0; bounded = omega (arith, kept.1, good.bounded) })

abbrev pub set_all : List (Text × Text) → List Bytes → List Bytes
set_all [] es = es
set_all ((key, value) ∷ sets) es = set_all sets (set_entry key value es)

abbrev pub AreKeys : List (Text × Text) → Type 0
AreKeys = All (λ s. IsKey s.0)

txt_set_all-step :
    (key value txt next : Bytes) (sets : List (Text × Text))
    → txt_set key value txt ≡ some next
    → txt_set_all ((key, value) ∷ sets) txt ≡ txt_set_all sets next
unfolding txt_set_all
txt_set_all-step key value txt next sets e = rw (e, txt_set_all) refl

txt_set_all-nil : (txt : Bytes) → txt_set_all [] txt ≡ some txt
unfolding txt_set_all
txt_set_all-nil txt = refl

pub txt_set_all-encode_entries :
    (sets : List (Text × Text)) (es : List Bytes)
    → AreKeys sets
    → IsTxt es
    → (txt_set_all sets (encode_entries es) ≡ some (encode_entries (set_all sets es)))
      × IsTxt (set_all sets es)
txt_set_all-encode_entries [] es keys good = (txt_set_all-nil (encode_entries es), good)
txt_set_all-encode_entries ((key, value) ∷ sets) es keys good =
    let next = set_entry key value es in
    let rest = txt_set_all-encode_entries sets next keys.1 (set_entry-IsTxt key value es good) in
    (
      txt_set_all-step key value (encode_entries es) (encode_entries next) sets
            (txt_set-encode_entries key value es keys.0 good.entries)
          ∙ rest.0,
      rest.1,
    )
