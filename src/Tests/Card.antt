-- ===== src/Tests/Card.antt =====
-- An SD card that does not answer.
use wifi_audio.Common.{ℕ, ◌≡◌, true, [], ◌∷◌, some, ret}
use wifi_audio.Esp32.Fs.{SpiPins, Call, Driver, bus_call, mount_call, init_fs, init_fs_lem}

abbrev pins : SpiPins
pins = record { cs = 5; mosi = 23; miso = 19; ck = 18 }

-- The mount ends with ESP_ERR_TIMEOUT.
abbrev result : Call → ℕ
result (Call.bus_initialize slot bus) = 0
result (Call.sdspi_mount point slot config) = 0x107

abbrev driver : Driver
driver = record { slot = 1; result = result }

init_fs_lem_example :
    init_fs driver (some pins) ≡ ret (true, bus_call driver pins ∷ mount_call driver pins ∷ [])
init_fs_lem_example = init_fs_lem driver pins
