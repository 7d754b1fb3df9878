-- ===== src/Proto.antt =====
-- common/edna_proto.h, under src: the constants of the protocol between the daemon and its clients.
use edna.Base.{ℕ}

abbrev pub api_version : ℕ
api_version = 0x01

-- What a client sends to the daemon.
abbrev pub get_api_version : ℕ
get_api_version = 0x01

abbrev pub register_aid : ℕ
register_aid = 0x02

abbrev pub disconnect : ℕ
disconnect = 0x03

-- What the daemon sends to a client.
abbrev pub power_up : ℕ
power_up = 0x01

abbrev pub power_down : ℕ
power_down = 0x02

abbrev pub transceive_apdu : ℕ
transceive_apdu = 0x03

-- The status byte of an answer.
abbrev pub edna_ok : ℕ
edna_ok = 0x00

abbrev pub aid_exists : ℕ
aid_exists = 0x01

abbrev pub unknown_command : ℕ
unknown_command = 0x02
