-- ===== src/Usb/Descriptor.antt =====
-- What src/legacy_usb.c tells Zephyr's USB stack, lines 115 to 154, 213 to 222 and 329 to 354: the
-- descriptors that the host reads, and which function of the firmware is called for what.
use crazyradio2_firmware.Base.{
  ℕ, ◌%◌, ◌^◌, ◌≡◌, refl, Option, none, some, List, [], ◌∷◌, length, ◌==◌, if◌then◌else◌,
}
use crazyradio2_firmware.Usb.State.{crazyradio_bulk_ep_mps}

-- The constants of Zephyr that the tables name.
pub data DescriptorType : Type 0 where
  usb_desc_interface usb_desc_endpoint : DescriptorType

pub data InterfaceClass : Type 0 where
  usb_bcc_vendor : InterfaceClass

pub data EpType : Type 0 where
  usb_dc_ep_bulk : EpType

-- `struct usb_if_descriptor` and `struct usb_ep_descriptor` of Zephyr, with the fields that are set.
pub record IfDescriptor : Type 0 where
  pub b_length : ℕ
  pub b_descriptor_type : DescriptorType
  pub b_interface_number : ℕ
  pub b_alternate_setting : ℕ
  pub b_num_endpoints : ℕ
  pub b_interface_class : InterfaceClass
  pub b_interface_sub_class : ℕ
  pub b_interface_protocol : ℕ
  pub i_interface : ℕ

pub record EpDescriptor : Type 0 where
  pub b_length : ℕ
  pub b_descriptor_type : DescriptorType
  pub b_endpoint_address : ℕ
  pub bm_attributes : EpType
  pub w_max_packet_size : ℕ
  pub b_interval : ℕ

-- The sizes of Zephyr's two structures.
pub record Sizes : Type 0 where
  pub usb_if_descriptor : ℕ
  pub usb_ep_descriptor : ℕ

abbrev pub crazyradio_num_ep : ℕ
crazyradio_num_ep = 2

abbrev pub crazyradio_out_ep_addr : ℕ
crazyradio_out_ep_addr = 0x01

abbrev pub crazyradio_in_ep_addr : ℕ
crazyradio_in_ep_addr = 0x81

-- `INITIALIZER_IF`
abbrev pub initializer_if : Sizes → (num_ep : ℕ) → InterfaceClass → IfDescriptor
initializer_if sizes num_ep iface_class = record {
  b_length = sizes.usb_if_descriptor;
  b_descriptor_type = usb_desc_interface;
  b_interface_number = 0;
  b_alternate_setting = 0;
  b_num_endpoints = num_ep;
  b_interface_class = iface_class;
  b_interface_sub_class = 0;
  b_interface_protocol = 0;
  i_interface = 0;
}

-- `INITIALIZER_IF_EP`
abbrev pub initializer_if_ep : Sizes → (addr : ℕ) → EpType → (mps interval : ℕ) → EpDescriptor
initializer_if_ep sizes addr attr mps interval = record {
  b_length = sizes.usb_ep_descriptor;
  b_descriptor_type = usb_desc_endpoint;
  b_endpoint_address = addr;
  bm_attributes = attr;
  w_max_packet_size = mps % 2 ^ 16;
  b_interval = interval;
}

-- `crazyradio_desc`, in the order of its fields.
pub record CrazyradioDesc : Type 0 where
  pub if0 : IfDescriptor
  pub if0_in_ep : EpDescriptor
  pub if0_out_ep : EpDescriptor

abbrev pub crazyradio_desc : Sizes → CrazyradioDesc
crazyradio_desc sizes = record {
  if0 = initializer_if sizes crazyradio_num_ep usb_bcc_vendor;
  if0_in_ep = initializer_if_ep sizes crazyradio_in_ep_addr usb_dc_ep_bulk crazyradio_bulk_ep_mps 0;
  if0_out_ep =
      initializer_if_ep sizes crazyradio_out_ep_addr usb_dc_ep_bulk crazyradio_bulk_ep_mps 0;
}

-- The functions of the firmware that the USB stack calls: `crazyradio_out_cb`, `crazyradio_in_cb`,
-- `crazyradio_status_cb`, `crazyradio_interface_config` and `crazyradio_vendor_handler`.
pub data Callback : Type 0 where
  on_out on_in on_status on_interface_config on_vendor_request : Callback

-- `struct usb_ep_cfg_data`
pub record EpCfg : Type 0 where
  pub ep_cb : Callback
  pub ep_addr : ℕ

abbrev pub ep_cfg : List EpCfg
ep_cfg =
    record { ep_cb = on_out; ep_addr = crazyradio_out_ep_addr }
    ∷ record { ep_cb = on_in; ep_addr = crazyradio_in_ep_addr }
    ∷ []

-- `struct usb_cfg_data`; a pointer that is NULL is `none`.
pub record CfgData : Type 0 where
  pub usb_device_description : Option DescriptorType
  pub interface_config : Callback
  pub interface_descriptor : IfDescriptor
  pub cb_usb_status : Callback
  pub class_handler : Option Callback
  pub custom_handler : Option Callback
  pub vendor_handler : Option Callback
  pub num_endpoints : ℕ
  pub endpoint : List EpCfg

abbrev pub crazyradio_config : Sizes → CfgData
crazyradio_config sizes = record {
  usb_device_description = none;
  interface_config = on_interface_config;
  interface_descriptor = (crazyradio_desc sizes).if0;
  cb_usb_status = on_status;
  class_handler = none;
  custom_handler = none;
  vendor_handler = some on_vendor_request;
  num_endpoints = length ep_cfg;
  endpoint = ep_cfg;
}

-- The callback of an endpoint.
abbrev pub callback_of : ℕ → List EpCfg → Option Callback
callback_of addr [] = none
callback_of addr (e ∷ es) = if e.ep_addr == addr then some e.ep_cb else callback_of addr es

-- Each endpoint that the host is told of has the callback of its direction, and packets of the size
-- by which the callback tells the end of a transfer; and the host is told of as many endpoints as
-- have a callback.
endpoints-callbacks :
    (sizes : Sizes)
    → let desc = crazyradio_desc sizes in
      let config = crazyradio_config sizes in
      (callback_of desc.if0_out_ep.b_endpoint_address config.endpoint ≡ some on_out)
      × (callback_of desc.if0_in_ep.b_endpoint_address config.endpoint ≡ some on_in)
      × (desc.if0_out_ep.w_max_packet_size ≡ crazyradio_bulk_ep_mps)
      × (config.interface_descriptor.b_num_endpoints ≡ config.num_endpoints)
endpoints-callbacks sizes = (refl, refl, refl, refl)
