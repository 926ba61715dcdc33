-- ===== src/Esp32/Fs.antt =====
-- src/esp32/fs.cpp: the start of the SD card, over the vendor's drivers as a parameter.
use wifi_audio.Common.{
  ℕ, ◌≡◌, inl, inr, refl, Bool, true, false, not, List, [], ◌∷◌, Option, none, some, ◌==◌, ◌*◌,
  Bytes, codes, if◌then◌else◌, Bool-cases, Outcome, ret, fault, Fault,
}

-- `gpio_num_t` is a number.
pub record SpiPins : Type 0 where
  pub cs : ℕ
  pub mosi : ℕ
  pub miso : ℕ
  pub ck : ℕ

-- What is written into `spi_bus_config_t`; none for -1, a line that is not used.
pub record BusConfig : Type 0 where
  pub mosi_io_num : ℕ
  pub miso_io_num : ℕ
  pub sclk_io_num : ℕ
  pub quadwp_io_num : Option ℕ
  pub quadhd_io_num : Option ℕ
  pub max_transfer_sz : ℕ

-- What is written into `sdspi_device_config_t`.
pub record SlotConfig : Type 0 where
  pub gpio_cs : ℕ
  pub host_id : ℕ

-- What is written into `esp_vfs_fat_sdmmc_mount_config_t`.
pub record MountConfig : Type 0 where
  pub format_if_mount_failed : Bool
  pub max_files : ℕ
  pub allocation_unit_size : ℕ

-- The calls of the drivers.
pub data Call : Type 0 where
  bus_initialize : ℕ → BusConfig → Call
  sdspi_mount : Bytes → SlotConfig → MountConfig → Call

-- The drivers: the slot of SDSPI_HOST_DEFAULT, and the `esp_err_t` of a call. ESP_OK is 0.
pub record Driver : Type 0 where
  pub slot : ℕ
  pub result : Call → ℕ

abbrev pub bus_call : Driver → SpiPins → Call
bus_call driver pins = bus_initialize driver.slot (record {
  mosi_io_num = pins.mosi;
  miso_io_num = pins.miso;
  sclk_io_num = pins.ck;
  quadwp_io_num = none;
  quadhd_io_num = none;
  max_transfer_sz = 4000;
})

abbrev pub mount_call : Driver → SpiPins → Call
mount_call driver pins =
    sdspi_mount (codes "/sdcard") (record { gpio_cs = pins.cs; host_id = driver.slot })
      (record { format_if_mount_failed = false; max_files = 5; allocation_unit_size = 16 * 1024 })

-- The result and the calls that were made. After a failure the value is the error code, as a `bool`.
unfoldable pub init_fs : Driver → Option SpiPins → Outcome (Bool × List Call)
init_fs driver none = fault Fault.assertion
init_fs driver (some pins) =
    let bus = bus_call driver pins in
    let mount = mount_call driver pins in
    let mounted =
      if not (driver.result mount == 0)
      then ret (not (driver.result mount == 0), bus ∷ mount ∷ [])
      else ret (true, bus ∷ mount ∷ []) in
    if not (driver.result bus == 0) then ret (not (driver.result bus == 0), bus ∷ []) else mounted

-- Whatever the drivers answer, with pins: the bus is initialised, the card is mounted if that
-- succeeded, and init_fs returns true, after each failure too.
pub init_fs_lem :
    (driver : Driver) (pins : SpiPins)
    → init_fs driver (some pins)
      ≡ ret (
        true,
        bus_call driver pins
            ∷ (if driver.result (bus_call driver pins) == 0
                then mount_call driver pins ∷ []
                else []),
      )
unfolding init_fs
init_fs_lem driver pins = elim (Bool-cases (driver.result (bus_call driver pins) == 0)) [
  | inr failed ↦ rw (failed, init_fs) refl
  | inl ok ↦ elim (Bool-cases (driver.result (mount_call driver pins) == 0)) [
    | inr failed ↦ rw (ok, failed, init_fs) refl
    | inl mounted ↦ rw (ok, mounted, init_fs) refl
  ]
]
