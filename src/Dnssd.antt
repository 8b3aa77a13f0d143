-- ===== src/Dnssd.antt =====
-- The service records that the AirPlay server reads back: src/airplay/airshow_dnssd.c. A C string is its
-- bytes without the final zero. The constants of UxPlay's headers and its text of a hardware address are
-- parameters.
pub mod Txt
pub mod Records
mod Names
pub use Names.*
use air_show.Prelude.{
  ℕ, zero, suc, ◌+◌, ◌-◌, ◌*◌, ◌/◌, ◌%◌, ◌^◌, Bool, true, false, List, [], ◌∷◌, ◌++◌, Option, none,
  some, if◌then◌else◌, ltb, leb, ◌==◌, ◌&&◌, ◌||◌, not, Bytes, length, take, drop, same_bytes,
}
use air_show.Settings.{Text}
use air_show.Dns.Wire.{byte_at, slice}

abbrev pub max_txt : ℕ
max_txt = 1024

-- The test of `txt_set` for an entry of length `len` at `pos`.
unfoldable pub key_at : Bytes → Bytes → ℕ → ℕ → Bool
key_at txt key pos len =
    leb (length key) len
    && (same_bytes (slice txt (pos + 1) (length key)) key
        && (len == length key || byte_at txt (pos + 1 + length key) == b'='))

-- The loop of `txt_set`, on fuel: `none` is a loop that has not ended. `txt` is the part of the record in
-- use.
unfoldable pub remove_key : ℕ → Bytes → ℕ → Bytes → Option Bytes
unfolding key_at
remove_key zero key pos txt = none
remove_key (suc fuel) key pos txt =
    let next = pos + 1 + byte_at txt pos in
    let removed = remove_key fuel key pos (take pos txt ++ drop next txt) in
    let behind = remove_key fuel key next txt in
    if ltb pos (length txt)
    then (if key_at txt key pos (byte_at txt pos) then removed else behind)
    else some txt

abbrev pub append_entry : Bytes → Bytes → Bytes → Bytes
append_entry key value txt =
    let entry_len = length key + 1 + length value in
    if ltb 255 entry_len || ltb max_txt (length txt + 1 + entry_len)
    then txt
    else txt ++ (entry_len ∷ (key ++ (b'=' ∷ value)))

-- `txt_set`; each round takes a byte at least, so that one more than the bytes in use is enough.
unfoldable pub txt_set : Bytes → Bytes → Bytes → Option Bytes
unfolding remove_key
txt_set key value txt = elim (remove_key (suc (length txt)) key 0 txt) [
  | none ↦ none
  | some kept ↦ some (append_entry key value kept)
]

-- The constants of global.h and dnssdint.h, with the numbers that `strtoul` reads from FEATURES_1 and
-- FEATURES_2; `hex` is %X, and `hwaddr_airplay` is `utils_hwaddr_airplay`, nothing where it fails.
pub record Globals : Type 0 where
  pub raop_ch : Text
  pub raop_cn : Text
  pub raop_da : Text
  pub raop_et : Text
  pub raop_vv : Text
  pub global_model : Text
  pub raop_md : Text
  pub raop_rhd : Text
  pub raop_sf : Text
  pub raop_sr : Text
  pub raop_ss : Text
  pub raop_sv : Text
  pub raop_tp : Text
  pub raop_txtvers : Text
  pub raop_vs : Text
  pub raop_vn : Text
  pub airplay_pi : Text
  pub airplay_srcvers : Text
  pub airplay_vv : Text
  pub features_1 : ℕ
  pub features_2 : ℕ
  pub hex : ℕ → Text
  pub hwaddr_airplay : Bytes → Option Text

pub record Dnssd : Type 0 where
  pub name : Bytes
  pub hw_addr : Bytes
  pub pk : Option Text
  pub features1 : ℕ
  pub features2 : ℕ
  pub pin_pw : ℕ

abbrev pub dnssd_pk : Dnssd → Text
dnssd_pk d = elim d.pk [ none ↦ [] | some pk ↦ pk ]

-- The calls of `txt_set` in their order.
unfoldable pub txt_set_all : List (Text × Text) → Bytes → Option Bytes
unfolding txt_set
txt_set_all [] txt = some txt
txt_set_all ((key, value) ∷ sets) txt = elim (txt_set key value txt) [
  | none ↦ none
  | some next ↦ txt_set_all sets next
]

-- The `switch` on `pin_pw`.
abbrev pub access_sets : ℕ → Text → List (Text × Text)
access_sets pin_pw raop_sf =
    if pin_pw == 2 || pin_pw == 3
    then (pw_key, true_text) ∷ (sf_key, password_flags) ∷ []
    else if pin_pw == 1
    then (pw_key, true_text) ∷ (sf_key, pin_flags) ∷ []
    else (pw_key, false_text) ∷ (sf_key, raop_sf) ∷ []

module _ (g : Globals) where
  abbrev pub features_text : Dnssd → Text
  features_text d = hex_prefix ++ g.hex d.features1 ++ hex_middle ++ g.hex d.features2

  abbrev pub sets_before : Dnssd → List (Text × Text)
  sets_before d =
      (ch_key, g.raop_ch)
      ∷ (cn_key, g.raop_cn)
      ∷ (da_key, g.raop_da)
      ∷ (et_key, g.raop_et)
      ∷ (vv_key, g.raop_vv)
      ∷ (ft_key, features_text d)
      ∷ (am_key, g.global_model)
      ∷ (md_key, g.raop_md)
      ∷ (rhd_key, g.raop_rhd)
      ∷ []

  abbrev pub sets_between : Dnssd → List (Text × Text)
  sets_between d =
      (sr_key, g.raop_sr)
      ∷ (ss_key, g.raop_ss)
      ∷ (sv_key, g.raop_sv)
      ∷ (tp_key, g.raop_tp)
      ∷ (txtvers_key, g.raop_txtvers)
      ∷ []

  abbrev pub last_sets : Dnssd → List (Text × Text)
  last_sets d =
      (sf_key, g.raop_sf) ∷ (vs_key, g.raop_vs) ∷ (vn_key, g.raop_vn) ∷ (pk_key, dnssd_pk d) ∷ []

  abbrev pub sets_behind : Dnssd → List (Text × Text)
  sets_behind d = sets_between d ++ last_sets d

  -- In front of the `switch`, in it, and behind it.
  abbrev pub raop_sets : Dnssd → List (Text × Text)
  raop_sets d = sets_before d ++ (access_sets d.pin_pw g.raop_sf ++ sets_behind d)

  unfoldable pub build_raop_txt : Dnssd → Option Bytes
  unfolding txt_set_all
  build_raop_txt d = txt_set_all (raop_sets d) []

  abbrev pub airplay_sets : Dnssd → List (Text × Text)
  airplay_sets d =
      (deviceid_key, elim (g.hwaddr_airplay d.hw_addr) [ none ↦ [] | some text ↦ text ])
      ∷ (features_key, features_text d)
      ∷ (pw_key, if d.pin_pw == 0 then false_text else true_text)
      ∷ (flags_key, airplay_flags)
      ∷ (model_key, g.global_model)
      ∷ (pk_key, dnssd_pk d)
      ∷ (pi_key, g.airplay_pi)
      ∷ (srcvers_key, g.airplay_srcvers)
      ∷ (vv_key, g.airplay_vv)
      ∷ []

  unfoldable pub build_airplay_txt : Dnssd → Option Bytes
  unfolding txt_set_all
  build_airplay_txt d = txt_set_all (airplay_sets d) []

  -- `dnssd_get_raop_txt` and `dnssd_get_airplay_txt`: the record with its length.
  unfoldable pub dnssd_get_raop_txt : Dnssd → Option (Bytes × ℕ)
  unfolding build_raop_txt
  dnssd_get_raop_txt d = elim (build_raop_txt d) [ none ↦ none | some txt ↦ some (txt, length txt) ]

  unfoldable pub dnssd_get_airplay_txt : Dnssd → Option (Bytes × ℕ)
  unfolding build_airplay_txt
  dnssd_get_airplay_txt d = elim (build_airplay_txt d) [
    | none ↦ none
    | some txt ↦ some (txt, length txt)
  ]

pub data Error : Type 0 where
  out_of_mem bad_features : Error

pub data Init : Type 0 where
  failed : Error → Init
  created : Dnssd → Init

-- `dnssd_init`; the two tests say whether `calloc` gives the struct, and the two strings.
unfoldable pub dnssd_init : Globals → (has_struct has_strings : Bool) → Bytes → Bytes → ℕ → Init
dnssd_init g has_struct has_strings name hw_addr pin_pw =
    if not has_struct
    then failed out_of_mem
    else if leb (2 ^ 32) g.features_1
    then failed bad_features
    else if leb (2 ^ 32) g.features_2
    then failed bad_features
    else if not has_strings
    then failed out_of_mem
    else created (record {
      name = name;
      hw_addr = hw_addr;
      pk = none;
      features1 = g.features_1;
      features2 = g.features_2;
      pin_pw = pin_pw;
    })

unfoldable pub dnssd_get_airplay_features : Dnssd → ℕ
dnssd_get_airplay_features d = (d.features2 * 2 ^ 32 + d.features1) % 2 ^ 64

unfoldable pub dnssd_set_pk : Text → Dnssd → Dnssd
dnssd_set_pk pk d = record d { pk = some pk }

-- Or with a mask of one bit, and the and with its complement.
abbrev pub with_bit : ℕ → ℕ → ℕ
with_bit features bit = if features / 2 ^ bit % 2 == 1 then features else features + 2 ^ bit

abbrev pub without_bit : ℕ → ℕ → ℕ
without_bit features bit = if features / 2 ^ bit % 2 == 1 then features - 2 ^ bit else features

abbrev pub put_bit : ℕ → ℕ → ℕ → ℕ
put_bit val features bit = if val == 0 then without_bit features bit else with_bit features bit

-- `dnssd_set_airplay_features`, for arguments that are not negative; a negative one changes nothing.
unfoldable pub dnssd_set_airplay_features : ℕ → ℕ → Dnssd → Dnssd
dnssd_set_airplay_features bit val d =
    if ltb 63 bit
    then d
    else if ltb 1 val
    then d
    else if leb 32 bit
    then record d { features2 = put_bit val d.features2 (bit - 32) }
    else record d { features1 = put_bit val d.features1 bit }
