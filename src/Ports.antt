-- ===== src/Ports.antt =====
-- The x86 I/O ports that the drivers write: `outb` of interrupts.rs and vga.rs as an entry of a
-- log, so that a driver routine is a function that returns what it writes, in order.
use alilu_os.Common.{ℕ}

pub record PortWrite : Type 0 where
  pub port : ℕ
  pub value : ℕ

-- `outb(port, value)`
abbrev pub outb : ℕ → ℕ → PortWrite
outb p v = record { port = p; value = v }
