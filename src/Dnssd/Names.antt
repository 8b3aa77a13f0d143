-- ===== src/Dnssd/Names.antt =====
-- The keys and the fixed values of the service records: src/airplay/airshow_dnssd.c.
use air_show.Prelude.{[], ◌∷◌}
use air_show.Settings.{Text}

abbrev pub ch_key : Text
ch_key = b'c' ∷ b'h' ∷ []

abbrev pub cn_key : Text
cn_key = b'c' ∷ b'n' ∷ []

abbrev pub da_key : Text
da_key = b'd' ∷ b'a' ∷ []

abbrev pub et_key : Text
et_key = b'e' ∷ b't' ∷ []

abbrev pub vv_key : Text
vv_key = b'v' ∷ b'v' ∷ []

abbrev pub ft_key : Text
ft_key = b'f' ∷ b't' ∷ []

abbrev pub am_key : Text
am_key = b'a' ∷ b'm' ∷ []

abbrev pub md_key : Text
md_key = b'm' ∷ b'd' ∷ []

abbrev pub rhd_key : Text
rhd_key = b'r' ∷ b'h' ∷ b'd' ∷ []

abbrev pub pw_key : Text
pw_key = b'p' ∷ b'w' ∷ []

abbrev pub sf_key : Text
sf_key = b's' ∷ b'f' ∷ []

abbrev pub sr_key : Text
sr_key = b's' ∷ b'r' ∷ []

abbrev pub ss_key : Text
ss_key = b's' ∷ b's' ∷ []

abbrev pub sv_key : Text
sv_key = b's' ∷ b'v' ∷ []

abbrev pub tp_key : Text
tp_key = b't' ∷ b'p' ∷ []

abbrev pub txtvers_key : Text
txtvers_key = b't' ∷ b'x' ∷ b't' ∷ b'v' ∷ b'e' ∷ b'r' ∷ b's' ∷ []

abbrev pub vs_key : Text
vs_key = b'v' ∷ b's' ∷ []

abbrev pub vn_key : Text
vn_key = b'v' ∷ b'n' ∷ []

abbrev pub pk_key : Text
pk_key = b'p' ∷ b'k' ∷ []

abbrev pub deviceid_key : Text
deviceid_key = b'd' ∷ b'e' ∷ b'v' ∷ b'i' ∷ b'c' ∷ b'e' ∷ b'i' ∷ b'd' ∷ []

abbrev pub features_key : Text
features_key = b'f' ∷ b'e' ∷ b'a' ∷ b't' ∷ b'u' ∷ b'r' ∷ b'e' ∷ b's' ∷ []

abbrev pub flags_key : Text
flags_key = b'f' ∷ b'l' ∷ b'a' ∷ b'g' ∷ b's' ∷ []

abbrev pub model_key : Text
model_key = b'm' ∷ b'o' ∷ b'd' ∷ b'e' ∷ b'l' ∷ []

abbrev pub pi_key : Text
pi_key = b'p' ∷ b'i' ∷ []

abbrev pub srcvers_key : Text
srcvers_key = b's' ∷ b'r' ∷ b'c' ∷ b'v' ∷ b'e' ∷ b'r' ∷ b's' ∷ []

abbrev pub true_text : Text
true_text = b't' ∷ b'r' ∷ b'u' ∷ b'e' ∷ []

abbrev pub false_text : Text
false_text = b'f' ∷ b'a' ∷ b'l' ∷ b's' ∷ b'e' ∷ []

abbrev pub password_flags : Text
password_flags = b'0' ∷ b'x' ∷ b'8' ∷ b'4' ∷ []

abbrev pub pin_flags : Text
pin_flags = b'0' ∷ b'x' ∷ b'8' ∷ b'c' ∷ []

abbrev pub airplay_flags : Text
airplay_flags = b'0' ∷ b'x' ∷ b'4' ∷ []

abbrev pub hex_prefix : Text
hex_prefix = b'0' ∷ b'x' ∷ []

abbrev pub hex_middle : Text
hex_middle = b',' ∷ b'0' ∷ b'x' ∷ []
