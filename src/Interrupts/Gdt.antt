-- ===== src/Interrupts/Gdt.antt =====
-- src/interrupts.rs: the Global Descriptor Table in memory, as `lgdt` and the segment registers read
-- it, and `init`. A structure that is packed is its bytes, low byte first.
use alilu_os.Common.{ℕ, zero, suc, ◌+◌, ◌-◌, ◌*◌, ◌/◌, ◌%◌, ◌^◌, ◌<◌, ◌≡◌, refl, arith}
use alilu_os.Common.{List, [], ◌∷◌, ◌++◌, get_or, length, replicate}
use alilu_os.Ports.{PortWrite}
use alilu_os.Interrupts.{
  GdtSystemEntry, setup_gdt, IdtEntry, EntryPoints, setup_idt, setup_pic, setup_pit,
}

pub record GdtEntry : Type 0 where
  pub limit_low : ℕ
  pub base_low : ℕ
  pub base_middle : ℕ
  pub access_byte : ℕ
  pub flags_limit_high : ℕ
  pub base_high : ℕ

pub record Gdt : Type 0 where
  pub null : GdtEntry
  pub code : GdtEntry
  pub data_segment : GdtEntry
  pub tss : GdtSystemEntry

-- `GdtPointer` and `IdtPointer`
pub record TablePointer : Type 0 where
  pub limit : ℕ
  pub base : ℕ

abbrev segment : (access_byte flags_limit_high : ℕ) → GdtEntry
segment access_byte flags_limit_high = record {
  limit_low = 0;
  base_low = 0;
  base_middle = 0;
  access_byte = access_byte;
  flags_limit_high = flags_limit_high;
  base_high = 0;
}

-- `GDT` before `setup_gdt`
abbrev pub gdt : Gdt
gdt = record {
  null = segment 0 0;
  code = segment 0x9A 0x20;
  data_segment = segment 0x92 0;
  tss = record {
    limit_low = 0;
    base_low = 0;
    base_middle = 0;
    access_byte = 0;
    flags_limit_high = 0;
    base_high_middle = 0;
    base_high = 0;
    reserved = 0;
  };
}

-- The size of `TaskStateSegment`, by its fields.
abbrev task_state_segment : ℕ
task_state_segment = 4 + 3 * 8 + 8 + 7 * 8 + 8 + 2 + 2

-- The `n` bytes of a field.
abbrev bytes : ℕ → ℕ → List ℕ
bytes zero x = []
bytes (suc n) x = x % 2 ^ 8 ∷ bytes n (x / 2 ^ 8)

abbrev entry_bytes : GdtEntry → List ℕ
entry_bytes e =
    bytes 2 e.limit_low
    ++ (bytes 2 e.base_low
        ++ (bytes 1 e.base_middle
            ++ (bytes 1 e.access_byte ++ (bytes 1 e.flags_limit_high ++ bytes 1 e.base_high))))

abbrev system_bytes : GdtSystemEntry → List ℕ
system_bytes t =
    bytes 2 t.limit_low
    ++ (bytes 2 t.base_low
        ++ (bytes 1 t.base_middle
            ++ (bytes 1 t.access_byte
                ++ (bytes 1 t.flags_limit_high
                    ++ (bytes 1 t.base_high_middle
                        ++ (bytes 4 t.base_high ++ bytes 4 t.reserved))))))

-- `Gdt`, whose alignment of 16 fills its 40 bytes up to 48.
abbrev pub gdt_bytes : Gdt → List ℕ
gdt_bytes g =
    entry_bytes g.null
    ++ (entry_bytes g.code ++ (entry_bytes g.data_segment ++ (system_bytes g.tss ++ replicate 8 0)))

-- `setup_gdt` up to `lgdt`: the table and the pointer to it.
unfoldable pub load_gdt : (tss_address gdt_address : ℕ) → Gdt × TablePointer
unfolding setup_gdt
load_gdt tss_address gdt_address =
    let table = record gdt { tss = setup_gdt tss_address task_state_segment gdt.tss } in
    (table, record { limit = length (gdt_bytes table) - 1; base = gdt_address })

-- What `init` sets up.
pub record Loaded : Type 0 where
  pub gdt : Gdt
  pub gdt_pointer : TablePointer
  pub idt : List IdtEntry
  pub idt_pointer : TablePointer
  pub ports : List PortWrite

-- `init`: the linker chooses the addresses. A gate has 16 bytes.
unfoldable pub init :
    EntryPoints → (tss_address gdt_address idt_address : ℕ) → List IdtEntry → Loaded
unfolding load_gdt setup_idt setup_pic setup_pit
init h tss_address gdt_address idt_address idt =
    let (table, pointer) = load_gdt tss_address gdt_address in
    record {
      gdt = table;
      gdt_pointer = pointer;
      idt = setup_idt h idt;
      idt_pointer = record { limit = 16 * 256 - 1; base = idt_address };
      ports = setup_pic ++ setup_pit 100;
    }

-- The byte of a table that the processor reads for a selector.
abbrev pub descriptor_byte : Gdt → (selector offset : ℕ) → ℕ
descriptor_byte g selector offset = get_or (gdt_bytes g) (selector + offset) 0

-- The base address in a descriptor of 16 bytes.
abbrev pub system_base : (ℕ → ℕ) → ℕ
system_base d =
    d 2
    + 2 ^ 8 * d 3
    + 2 ^ 16 * d 4
    + 2 ^ 24 * d 7
    + 2 ^ 32 * (d 8 + 2 ^ 8 * d 9 + 2 ^ 16 * d 10 + 2 ^ 24 * d 11)

-- The limit in a descriptor.
abbrev pub descriptor_limit : (ℕ → ℕ) → ℕ
descriptor_limit d = d 0 + 2 ^ 8 * d 1 + 2 ^ 16 * (d 6 % 2 ^ 4)

-- The selectors that the code loads lead to descriptors of their kind: 0x08 to present 64-bit code
-- of ring 0, 0x10 to present writable data of ring 0, and 0x18, which `ltr` takes, to an available
-- 64-bit TSS whose base is the 64-bit address of the TSS and whose limit is its 104 bytes' last; all
-- of them are inside the limit of the table.
pub init-descriptor_byte :
    (h : EntryPoints) (tss_address gdt_address idt_address : ℕ) (idt : List IdtEntry)
    → tss_address < 2 ^ 64
    → let l = init h tss_address gdt_address idt_address idt in
      (descriptor_byte l.gdt 0x08 5 ≡ 0x9A)
      × (descriptor_byte l.gdt 0x08 6 / 2 ^ 5 ≡ 1)
      × (descriptor_byte l.gdt 0x10 5 ≡ 0x92)
      × (descriptor_byte l.gdt 0x18 5 ≡ 0x89)
      × (system_base (descriptor_byte l.gdt 0x18) ≡ tss_address)
      × (descriptor_limit (descriptor_byte l.gdt 0x18) ≡ 103)
      × (0x18 + 15 < l.gdt_pointer.limit)
unfolding init load_gdt setup_gdt
init-descriptor_byte h tss_address gdt_address idt_address idt small =
    (refl, refl, refl, refl, omega arith, refl, omega arith)
