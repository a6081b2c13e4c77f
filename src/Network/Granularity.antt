-- ===== src/Network/Granularity.antt =====
-- src/network/granularity.cpp and granularity.h: the diameter of a clique and its raw encoding.

use sleep_sync_agent.Base.{if◌then◌else◌, ℕ, ◌==◌}

pub data NetGranularity : Type 0 where
  small medium large invalid : NetGranularity

-- The values of TransmitPowerdBm that the program uses; the type is radioSoC's.
pub data TransmitPowerDbm : Type 0 where
  plus0 minus12 minus40 : TransmitPowerDbm

pub xmit_power_for_granularity : NetGranularity → TransmitPowerDbm
xmit_power_for_granularity small = minus40
xmit_power_for_granularity medium = minus12
xmit_power_for_granularity large = plus0
xmit_power_for_granularity invalid = minus40

-- The value of the enumerator, as `static_cast<unsigned char>`.
unfoldable pub get_raw : NetGranularity → ℕ
get_raw small = 0
get_raw medium = 1
get_raw large = 2
get_raw invalid = 3

unfoldable pub get_from_raw : ℕ → NetGranularity
get_from_raw raw_tss =
    if raw_tss == 0
    then large
    else if raw_tss == 1
    then medium
    else if raw_tss == 2
    then small
    else invalid

-- The two file-level facts: the clique's granularity, and the power that the radio was given.
pub record Power : Type 0 where
  pub granularity : NetGranularity
  pub xmit_power : TransmitPowerDbm

configure : NetGranularity → Power
configure granularity = record {
  granularity = granularity;
  xmit_power = xmit_power_for_granularity granularity;
}

-- An invalid granularity was garbled over the air, and changes nothing.
unfoldable pub try_set_granularity : Power → NetGranularity → Power
unfolding configure xmit_power_for_granularity
try_set_granularity p invalid = p
try_set_granularity p g = configure g
