-- ===== src/Network.antt =====
-- src/network.rs: the PCI scan, addresses and sockets, and the HTTP service. `config` is what the data
-- port 0xCFC gives after an address was written to port 0xCF8, and `from_utf8` is the library's.

pub mod Html
pub mod Pci
pub mod Links
pub mod History
pub mod Search
pub mod Browser
pub mod Scancodes
mod Tests
use Prim.Native.String.{String}
use Prim.Native.Nat.{bit_and, bit_or}
use alilu_os.Common.{ℕ, zero, suc, ◌+◌, ◌*◌, ◌/◌, ◌%◌, ◌^◌, Bool, true, false, ◌&&◌, ◌||◌, Option}
use alilu_os.Common.{none, some, List, [], ◌∷◌, ◌++◌, ◌==◌, if◌then◌else◌, Text, codes, is_empty}
use alilu_os.Common.{text_eq, starts_with, drop, decimal, byte_len, length}
use alilu_os.Fs.{Result, ok, err}

pub record PciDevice : Type 0 where
  pub bus : ℕ
  pub slot : ℕ
  pub func : ℕ
  pub vendor_id : ℕ
  pub device_id : ℕ
  pub bar0 : ℕ

-- The address that `pci_read_config` writes.
unfoldable pub config_address : (bus slot func offset : ℕ) → ℕ
config_address bus slot func offset =
    bit_or
      (bit_or (bit_or (bit_or (bus * 2 ^ 16) (slot * 2 ^ 11)) (func * 2 ^ 8)) (bit_and offset 0xFC))
      0x80000000

module _ (config : ℕ → ℕ) where
  unfoldable pub pci_read_config : (bus slot func offset : ℕ) → ℕ
  pci_read_config bus slot func offset = config (config_address bus slot func offset)

  -- Whether the device at a slot is the wanted one.
  unfoldable pub is_card : (vendor_id device_id bus slot : ℕ) → Bool
  is_card vendor_id device_id bus slot =
      let val = pci_read_config bus slot 0 0 in
      val % 2 ^ 16 == vendor_id && (val / 2 ^ 16) % 2 ^ 16 == device_id

  unfoldable pub card_at : (bus slot : ℕ) → PciDevice
  card_at bus slot =
      let val = pci_read_config bus slot 0 0 in
      record {
        bus = bus;
        slot = slot;
        func = 0;
        vendor_id = val % 2 ^ 16;
        device_id = (val / 2 ^ 16) % 2 ^ 16;
        bar0 = pci_read_config bus slot 0 0x10;
      }

  -- `for slot in slot..slot + n` of one bus.
  unfoldable pub scan_slots : (vendor_id device_id bus : ℕ) → (n slot : ℕ) → Option PciDevice
  scan_slots vendor_id device_id bus zero slot = none
  scan_slots vendor_id device_id bus (suc n) slot =
      let rest = scan_slots vendor_id device_id bus n (slot + 1) in
      if is_card vendor_id device_id bus slot then some (card_at bus slot) else rest

  -- `for bus in bus..bus + n`.
  unfoldable pub scan_buses : (vendor_id device_id : ℕ) → (n bus : ℕ) → Option PciDevice
  scan_buses vendor_id device_id zero bus = none
  scan_buses vendor_id device_id (suc n) bus = elim (scan_slots vendor_id device_id bus 32 0) [
    | some card ↦ some card
    | none ↦ scan_buses vendor_id device_id n (bus + 1)
  ]

  unfoldable pub pci_find_network_card : (vendor_id device_id : ℕ) → Option PciDevice
  pci_find_network_card vendor_id device_id = scan_buses vendor_id device_id 256 0

pub record EthernetDriver : Type 0 where
  pub mac_address : List ℕ
  pub card_detected : Bool
  pub driver_name : String

-- `EthernetDriver::new`
abbrev pub new_driver : EthernetDriver
new_driver = record {
  mac_address = 0x52 ∷ 0x54 ∷ 0x00 ∷ 0x12 ∷ 0x34 ∷ 0x56 ∷ [];
  card_detected = false;
  driver_name = "Generic/e1000";
}

-- `EthernetDriver::init` after the two scans answered: a driver without a card says that it has one.
unfoldable pub init_driver : Option PciDevice → Option PciDevice → EthernetDriver → EthernetDriver
init_driver (some _) _ d = record d {
  card_detected = true;
  driver_name = "Intel e1000 Gigabit NIC";
}
init_driver none (some _) d = record d {
  card_detected = true;
  driver_name = "VirtIO-Net Translucent NIC";
}
init_driver none none d = record d {
  card_detected = true;
  driver_name = "QEMU Virtual Ethernet Adapter";
}

-- `EthernetDriver::init`: the scans for an Intel e1000 and for a VirtIO card.
unfoldable pub init : (config : ℕ → ℕ) → EthernetDriver → EthernetDriver
unfolding init_driver pci_find_network_card
init config d =
    init_driver (pci_find_network_card config 0x8086 0x100E)
      (pci_find_network_card config 0x1AF4 0x1000) d

-- `Ipv4Address`, by its four bytes.
pub record Ipv4Address : Type 0 where
  pub a : ℕ
  pub b : ℕ
  pub c : ℕ
  pub d : ℕ

abbrev pub ipv4 : (a b c d : ℕ) → Ipv4Address
ipv4 a b c d = record { a = a; b = b; c = c; d = d }

unfoldable pub u8_to_str : ℕ → Text
u8_to_str val = decimal val

-- `Ipv4Address::to_string`
unfoldable pub to_string : Ipv4Address → Text
to_string ip =
    u8_to_str ip.a
    ++ (b'.' ∷ (u8_to_str ip.b ++ (b'.' ∷ (u8_to_str ip.c ++ (b'.' ∷ u8_to_str ip.d)))))

pub data TcpState : Type 0 where
  closed syn_sent established fin_wait : TcpState

pub record TcpSocket : Type 0 where
  pub local_port : ℕ
  pub remote_ip : Ipv4Address
  pub remote_port : ℕ
  pub state : TcpState
  pub seq_no : ℕ
  pub ack_no : ℕ
  pub rx_buffer : List ℕ

-- `TcpSocket::new`
abbrev pub new_socket : ℕ → TcpSocket
new_socket local_port = record {
  local_port = local_port;
  remote_ip = ipv4 0 0 0 0;
  remote_port = 0;
  state = closed;
  seq_no = 1000;
  ack_no = 0;
  rx_buffer = [];
}

-- `TcpSocket::connect`: the handshake is not made, and cannot fail.
unfoldable pub connect : Ipv4Address → ℕ → TcpSocket → TcpSocket
connect remote_ip remote_port s = record s {
  remote_ip = remote_ip;
  remote_port = remote_port;
  seq_no = (s.seq_no + 1) % 2 ^ 32;
  ack_no = 1;
  state = established;
}

abbrev is_established : TcpState → Bool
is_established established = true
is_established _ = false

-- `TcpSocket::send`, of so many bytes.
unfoldable pub send : ℕ → TcpSocket → Result TcpSocket
send len s =
    if is_established s.state
    then ok (record s { seq_no = (s.seq_no + len % 2 ^ 32) % 2 ^ 32 })
    else err "TCP socket is not connected"

-- `resolve_domain_name`, which never answers with an error.
unfoldable pub resolve_domain_name : Text → Ipv4Address
resolve_domain_name domain =
    let is = λ (s : String). text_eq domain (codes s) in
    if is "example.com" || is "www.example.com"
    then ipv4 93 184 216 34
    else if is "npr.org" || is "text.npr.org"
    then ipv4 151 101 1 67
    else if is "github.com" || is "www.github.com"
    then ipv4 140 82 121 4
    else ipv4 52 142 124 215

pub record HttpResponse : Type 0 where
  pub status_code : ℕ
  pub content_type : Text
  pub body : Text

-- The address without its scheme.
unfoldable pub without_scheme : Text → Text
without_scheme url =
    if starts_with url (codes "http://")
    then drop 7 url
    else if starts_with url (codes "https://")
    then drop 8 url
    else url

-- `splitn(2, '/')`: what stands before the first slash, and what follows it.
unfoldable pub split_host : Text → Text × Option Text
split_host [] = ([], none)
split_host (c ∷ s) =
    let rest = split_host s in if c == b'/' then ([], some s) else (c ∷ rest.0, rest.1)

abbrev path_of : Option Text → Text
path_of (some p) = b'/' ∷ p
path_of none = b'/' ∷ []

-- The request of `http_get`.
unfoldable pub request : Text → Text → Text
request path host =
    codes "GET "
    ++ (path
        ++ (codes " HTTP/1.1\r\nHost: "
            ++ (host
                ++ codes
                    "\r\nUser-Agent: AliluOS-TextBrowser/1.0\r\nAccept: text/html, text/plain\r\nConnection: close\r\n\r\n")))

abbrev pub canned_page : String
canned_page =
    "<html><head><title>DuckDuckGo Text Search</title></head><body><h1>DuckDuckGo Privacy Search</h1><p>Privacy, simplified. Search the web without being tracked.</p><a href=\"http://html.duckduckgo.com/html/?q=aliluos\">Search AliluOS</a></body></html>"

abbrev error_page : String
error_page =
    "<html><body><h1>Error</h1><p>Failed to parse network packet payload as UTF-8 text.</p></body></html>"

abbrev body_of : Option Text → Text
body_of (some s) = s
body_of none = codes error_page

module _ (from_utf8 : List ℕ → Option Text) where
  -- What `http_get` makes of the socket after the request was sent.
  unfoldable pub respond : Result TcpSocket → Result HttpResponse
  respond (err e) = err e
  respond (ok socket) = ok (record {
    status_code = 200;
    content_type = codes "text/html";
    body =
        if is_empty socket.rx_buffer
        then codes canned_page
        else body_of (from_utf8 socket.rx_buffer);
  })

  unfoldable pub http_get : Text → Result HttpResponse
  http_get url =
      let (host, path) = split_host (without_scheme url) in
      let socket = connect (resolve_domain_name host) 80 (new_socket 49152) in
      respond (send (byte_len (request (path_of path) host)) socket)
