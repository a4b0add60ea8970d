-- ===== src/Network/Pci.antt =====
-- Which card the PCI scan finds.
use alilu_os.Common.{
  ℕ, zero, suc, ◌+◌, ◌*◌, ◌≤◌, ◌<◌, ◌≡◌, refl, Bool, true, false, Option, none, some, arith,
  Bool-cases, inl, inr, ◌∙◌, sym, ap₂, ltb, ltb→lt,
}
use mathlib.Core.Path.{subst}
use alilu_os.Common.{◌/◌, ◌%◌, ◌^◌, ap}
use alilu_os.Network.{
  config_address, pci_read_config, PciDevice, is_card, card_at, scan_slots, scan_buses,
  pci_find_network_card,
}

module _ (config : ℕ → ℕ) (vendor_id device_id : ℕ) where
  abbrev pub wanted : (bus slot : ℕ) → Bool
  wanted bus slot = is_card config vendor_id device_id bus slot

  -- The card at a slot, the first wanted one of those that come from `start` on, in the order of the
  -- scan.
  pub record FirstFrom (start : ℕ) (card : PciDevice) : Type 0 where
    pub there : card ≡ card_at config card.bus card.slot
    pub matches : wanted card.bus card.slot ≡ true
    pub slot_in : card.slot < 32
    pub first :
        (bus slot : ℕ)
        → slot < 32
        → start ≤ bus * 32 + slot
        → bus * 32 + slot < card.bus * 32 + card.slot
        → wanted bus slot ≡ false

  -- No wanted card stands from `start` up to `end`.
  pub NoneIn : (start end : ℕ) → Type 0
  NoneIn start end =
      (bus slot : ℕ)
      → slot < 32
      → start ≤ bus * 32 + slot
      → bus * 32 + slot < end
      → wanted bus slot ≡ false

  abbrev pub Scanned : (start end : ℕ) → Option PciDevice → Type 0
  Scanned start end none = NoneIn start end
  Scanned start end (some card) = FirstFrom start card × (card.bus * 32 + card.slot < end)

  -- A slot without the card in front of a scan.
  none-Scanned :
      (start mid end : ℕ) (found : Option PciDevice)
      → NoneIn start mid
      → Scanned mid end found
      → Scanned start end found
  unfolding NoneIn
  none-Scanned start mid end none v w = λ bus slot h g l.
      elim (Bool-cases (ltb (bus * 32 + slot) mid)) [
        | inl before ↦ v bus slot h g (ltb→lt _ _ before)
        | inr behind ↦ w bus slot h (ground arith) l
      ]
  none-Scanned start mid end (some card) v (w, below) = (
    record {
      there = w.there;
      matches = w.matches;
      slot_in = w.slot_in;
      first = λ bus slot h g l. elim (Bool-cases (ltb (bus * 32 + slot) mid)) [
        | inl before ↦ v bus slot h g (ltb→lt _ _ before)
        | inr behind ↦ w.first bus slot h (ground arith) l
      ];
    },
    below,
  )

  one-NoneIn :
      (bus slot : ℕ)
      → slot < 32
      → wanted bus slot ≡ false
      → NoneIn (bus * 32 + slot) (bus * 32 + (slot + 1))
  unfolding NoneIn
  one-NoneIn bus slot h w bus' slot' h' g l =
      let same_bus : bus ≡ bus' = omega arith in
      let same_slot : slot ≡ slot' = omega arith in ap₂ wanted (sym same_bus) (sym same_slot) ∙ w

  here-Scanned :
      (bus slot end : ℕ)
      → slot < 32
      → bus * 32 + slot < end
      → wanted bus slot ≡ true
      → Scanned (bus * 32 + slot) end (some (card_at config bus slot))
  unfolding card_at
  here-Scanned bus slot end h l w = (
    record { there = refl; matches = w; slot_in = h; first = λ b s k g e. absurd (omega arith) },
    l,
  )

  scan_slots-Scanned :
      (bus n slot : ℕ)
      → slot + n ≡ 32
      → Scanned (bus * 32 + slot) (bus * 32 + 32) (scan_slots config vendor_id device_id bus n slot)
  unfolding scan_slots NoneIn
  scan_slots-Scanned bus zero slot e = λ b s h g l. absurd (omega arith)
  scan_slots-Scanned bus (suc n) slot e = elim (Bool-cases (wanted bus slot)) [
    | inl here ↦ rw here (here-Scanned bus slot (bus * 32 + 32) (omega arith) (omega arith) here)
    | inr elsewhere ↦ rw elsewhere (
        none-Scanned (bus * 32 + slot) (bus * 32 + (slot + 1)) (bus * 32 + 32) _
          (one-NoneIn bus slot (omega arith) elsewhere)
          (scan_slots-Scanned bus n (slot + 1) (omega arith)))
  ]

  -- A bus in front of a scan, by what its scan answered.
  next_bus-Scanned :
      (n bus : ℕ) (found : Option PciDevice)
      → Scanned (bus * 32 + 0) (bus * 32 + 32) found
      → Scanned
          ((bus + 1) * 32)
          (((bus + 1) + n) * 32)
          (scan_buses config vendor_id device_id n (bus + 1))
      → Scanned (bus * 32) ((bus + suc n) * 32) (elim found [
        | some card ↦ some card
        | none ↦ scan_buses config vendor_id device_id n (bus + 1)
      ])
  unfolding NoneIn
  next_bus-Scanned n bus none v w =
      none-Scanned (bus * 32) ((bus + 1) * 32) ((bus + suc n) * 32) _
        (λ b s h g l. v b s h (omega arith) (omega arith))
        (subst (λ x. Scanned ((bus + 1) * 32) x (scan_buses config vendor_id device_id n (bus + 1)))
          (omega arith) w)
  next_bus-Scanned n bus (some card) (v, below) w = (
    record {
      there = v.there;
      matches = v.matches;
      slot_in = v.slot_in;
      first = λ b s h g l. v.first b s h (omega arith) l;
    },
    omega arith,
  )

  scan_buses-Scanned :
      (n bus : ℕ)
      → Scanned (bus * 32) ((bus + n) * 32) (scan_buses config vendor_id device_id n bus)
  unfolding NoneIn scan_buses
  scan_buses-Scanned zero bus = λ b s h g l. absurd (omega arith)
  scan_buses-Scanned (suc n) bus =
      next_bus-Scanned n bus (scan_slots config vendor_id device_id bus 32 0)
        (scan_slots-Scanned bus 32 0 refl) (scan_buses-Scanned n (bus + 1))

  -- The words that a device gives at its offset 0, where the two ids are, and at offset 0x10.
  abbrev pub ids : (bus slot : ℕ) → ℕ
  ids bus slot = config (config_address bus slot 0 0)

  abbrev pub base_address : (bus slot : ℕ) → ℕ
  base_address bus slot = config (config_address bus slot 0 0x10)

  -- A device with the vendor and the device id asked for.
  pub record IsAsked (bus slot : ℕ) : Type 0 where
    pub vendor : ids bus slot % 2 ^ 16 ≡ vendor_id
    pub device : (ids bus slot / 2 ^ 16) % 2 ^ 16 ≡ device_id

  wanted-IsAsked : (bus slot : ℕ) → wanted bus slot ≡ true → IsAsked bus slot
  unfolding is_card pci_read_config
  wanted-IsAsked bus slot w = record { vendor = ground arith; device = ground arith }

  unwanted-IsAsked : (bus slot : ℕ) → wanted bus slot ≡ false → ¬ IsAsked bus slot
  unfolding is_card pci_read_config
  unwanted-IsAsked bus slot w asked = ground (arith, asked.vendor, asked.device)

  -- What the scan answers: the first device asked for, in the order of the buses and then of their
  -- 32 slots, with its place, its ids and its first base address.
  pub record IsFirst (card : PciDevice) : Type 0 where
    pub bus_in : card.bus < 256
    pub slot_in : card.slot < 32
    pub asked : IsAsked card.bus card.slot
    pub vendor_is : card.vendor_id ≡ vendor_id
    pub device_is : card.device_id ≡ device_id
    pub func_is : card.func ≡ 0
    pub bar0_is : card.bar0 ≡ base_address card.bus card.slot
    pub first :
        (bus slot : ℕ)
        → slot < 32
        → bus * 32 + slot < card.bus * 32 + card.slot
        → ¬ IsAsked bus slot

  abbrev pub Answers : Option PciDevice → Type 0
  Answers none = (bus slot : ℕ) → bus < 256 → slot < 32 → ¬ IsAsked bus slot
  Answers (some card) = IsFirst card

  Scanned-Answers : (found : Option PciDevice) → Scanned 0 (256 * 32) found → Answers found
  unfolding NoneIn card_at pci_read_config
  Scanned-Answers none v =
      λ bus slot b h. unwanted-IsAsked bus slot (v bus slot h (omega arith) (omega arith))
  Scanned-Answers (some card) (v, below) =
      let asked = wanted-IsAsked card.bus card.slot v.matches in
      record {
        bus_in = omega (arith, v.slot_in);
        slot_in = v.slot_in;
        asked = asked;
        vendor_is = ap (λ (c : PciDevice). c.vendor_id) v.there ∙ asked.vendor;
        device_is = ap (λ (c : PciDevice). c.device_id) v.there ∙ asked.device;
        func_is = ap (λ (c : PciDevice). c.func) v.there;
        bar0_is = ap (λ (c : PciDevice). c.bar0) v.there;
        first = λ bus slot h l. unwanted-IsAsked bus slot (v.first bus slot h (omega arith) l);
      }

  -- The scan answers with the first device, in the order of the buses and then of their 32 slots,
  -- that has the vendor and the device id asked for in the two halves of its first word, with its
  -- place, these ids and its first base address, and with nothing only where none of the 256 buses
  -- has such a device.
  pub pci_find_network_card-Answers : Answers (pci_find_network_card config vendor_id device_id)
  unfolding pci_find_network_card
  pci_find_network_card-Answers = Scanned-Answers _ (scan_buses-Scanned 256 0)
