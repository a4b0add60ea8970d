-- ===== src/Allocator/Align.antt =====
-- Rounding an address up to a multiple of an alignment.
use native.Mathlib.Nat.{mod-lt, mod-le, add-mod_right, div-add-mod, mul-mod_right}
use alilu_os.Common.{ℕ, ◌+◌, ◌-◌, ◌*◌, ◌/◌, ◌%◌, ◌^◌, ◌≤◌, ◌<◌, ◌≡◌, ◌∙◌, ap, arith}
use alilu_os.Allocator.{align_up}

-- What is left of a number without its remainder is a multiple.
less_rest : (addr align : ℕ) → (addr - addr % align) % align ≡ 0
less_rest addr align =
    let quotient : addr - addr % align ≡ align * (addr / align) =
      omega (arith, div-add-mod addr align) in
    ap (λ k. k % align) quotient ∙ mul-mod_right align (addr / align)

-- For an alignment that is not 0, where no address overflows, `align_up` gives the least multiple
-- of the alignment from the address on.
pub align_up-least :
    (addr align : ℕ)
    → 0 < align
    → addr + align ≤ 2 ^ 64
    → (align_up addr align % align ≡ 0)
      × (addr ≤ align_up addr align)
      × (align_up addr align < addr + align)
unfolding align_up
align_up-least addr align h fits =
    let rounded = (addr - addr % align) + align in
    ground (
      arith,
      less_rest addr align,
      add-mod_right (addr - addr % align) align,
      mod-lt addr h,
      mod-le addr align,
    )
