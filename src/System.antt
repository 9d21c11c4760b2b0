-- ===== src/System.antt =====
-- src/system.c: the reset into the UF2 bootloader.
use crazyradio2_firmware.Platform.{Calls, ◌▹◌, reset_with}

-- The register GPREGRET tells the bootloader to stay.
unfoldable pub system_reset_to_uf2 : Calls → Calls
system_reset_to_uf2 t = t ▹ reset_with 0x57
