-- ===== src/Usb/Out.antt =====
-- `crazyradio_out_cb` of src/legacy_usb.c, lines 163 to 206: the packets of a bulk transfer are put
-- together into one command.
pub mod Reassembly
use crazyradio2_firmware.Base.{
  ℕ, ◌+◌, ◌-◌, u32, Bool, true, false, Option, none, some, List, ltb, leb, ◌==◌, if◌then◌else◌,
  take, drop, length, blit, replicate,
}
use crazyradio2_firmware.Usb.State.{DataCommand, usb_answer_max_length, crazyradio_bulk_ep_mps}

-- The two static variables.
pub record OutState : Type 0 where
  pub accumulating : Bool
  pub command : DataCommand

abbrev pub out_statics : OutState
out_statics = record {
  accumulating = false;
  command = record { payload = replicate 128 0; length = 0 };
}

-- What `usb_read` puts at an offset of the payload: at most `n` bytes of the packet. What is left
-- of the packet is read into `scratch` and dropped.
abbrev read_at : DataCommand → ℕ → List ℕ → ℕ → List ℕ
read_at c offset packet n = blit offset (take n packet) c.payload

-- How many bytes of a packet are kept: all of them if they fit in the space.
unfoldable pub kept_bytes : (bytes_to_read space : ℕ) → ℕ
kept_bytes bytes_to_read space = if leb bytes_to_read space then bytes_to_read else space

-- Lines 171 to 188.
unfoldable pub accumulate : List ℕ → DataCommand → OutState × Option DataCommand
accumulate packet c =
    let bytes_to_read = length packet in
    let offset = c.length in
    let space = usb_answer_max_length - offset in
    let n = kept_bytes bytes_to_read space in
    let c' : DataCommand = record {
      payload = read_at c offset packet n;
      length = u32 (c.length + n);
    } in
    if ltb bytes_to_read crazyradio_bulk_ep_mps
    then (record { accumulating = false; command = c' }, some c')
    else (record { accumulating = true; command = c' }, none)

-- Lines 190 to 205.
unfoldable pub first_packet : List ℕ → DataCommand → OutState × Option DataCommand
first_packet packet c =
    let bytes_to_read = length packet in
    let n = kept_bytes bytes_to_read usb_answer_max_length in
    let c' : DataCommand = record { payload = read_at c 0 packet n; length = n } in
    if bytes_to_read == crazyradio_bulk_ep_mps
    then (record { accumulating = true; command = c' }, none)
    else (record { accumulating = false; command = c' }, some c')

-- One call with the packet that the host has sent. The second part is the command that is queued.
unfoldable pub crazyradio_out_cb : List ℕ → OutState → OutState × Option DataCommand
unfolding accumulate first_packet
crazyradio_out_cb packet s =
    if s.accumulating then accumulate packet s.command else first_packet packet s.command
