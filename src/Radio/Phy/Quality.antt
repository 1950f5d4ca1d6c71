-- ===== src/Radio/Phy/Quality.antt =====
-- The link quality that is computed from the signal strength.
use gibberish.Prelude.{◌<◌, ◌≤◌, ◌≡◌, false, arith}
use gibberish.Prelude.Int.{ℤ, pos, negsuc, IsI8, ltb_ℤ, as_u32}
use gibberish.Radio.Phy.{rssi_to_lqi}

-- The link quality is a byte, for every signal strength in the range of an `i8`.
pub rssi_to_lqi-lt : (r : ℤ) → IsI8 r → rssi_to_lqi r < 256
unfolding rssi_to_lqi as_u32
rssi_to_lqi-lt (pos n) h = ground arith
rssi_to_lqi-lt (negsuc n) h = ground arith

-- A stronger signal never has a lower link quality, for signal strengths in the range of an `i8`.
pub rssi_to_lqi_mono :
    (r s : ℤ) → IsI8 r → IsI8 s → ltb_ℤ s r ≡ false → rssi_to_lqi r ≤ rssi_to_lqi s
unfolding rssi_to_lqi as_u32
rssi_to_lqi_mono (pos n) (pos k) hr hs h = ground arith
rssi_to_lqi_mono (pos n) (negsuc k) hr hs h = ground arith
rssi_to_lqi_mono (negsuc n) (pos k) hr hs h = ground arith
rssi_to_lqi_mono (negsuc n) (negsuc k) hr hs h = ground arith
