-- ===== src/Memory/Tables/Enable.antt =====
-- `enable_temporarily` of libs/memory/src/page_table/page_table.rs: another table is the current one,
-- with interrupts off, until the guard that is returned is dropped.
use sophon_rpi_cross.Base.{
  ℕ, ◌%◌, ◌^◌, ◌≡◌, refl, ap, Bool, true, false, Outcome, done, ◌>>=◌, if◌then◌else◌,
}
use sophon_rpi_cross.Memory.Page.{size4k, page_new}
use sophon_rpi_cross.Memory.Page.Rounding.{page_new-aligned}

-- What of a core the code reads and writes: TTBR0_EL1 and the interrupt mask.
pub record Core : Type 0 where
  pub ttbr0 : ℕ
  pub irq_enabled : Bool

-- The guard `PageTables`.
pub record Guard : Type 0 where
  pub old : ℕ
  pub new : ℕ
  pub irq_enabled : Bool

unfoldable pub enable_temporarily : ℕ → Core → Outcome (Guard × Core)
enable_temporarily table core = do
  old ← page_new size4k core.ttbr0
  new ← page_new size4k table
  done (
    record { old = old; new = new; irq_enabled = core.irq_enabled },
    record { ttbr0 = new; irq_enabled = if core.irq_enabled then false else core.irq_enabled },
  )

-- `Drop for PageTables`
unfoldable pub drop : Guard → Core → Core
drop x core = record {
  ttbr0 = x.old;
  irq_enabled = if x.irq_enabled then true else core.irq_enabled;
}

-- While the guard lives, the other table is the current one and interrupts are off. Dropping it gives
-- back the table and the interrupt mask from before, whatever table was set in between.
pub drop-enable_temporarily :
    (table between : ℕ) (core : Core)
    → table % 2 ^ 12 ≡ 0
    → core.ttbr0 % 2 ^ 12 ≡ 0
    → (guard : Guard) × (inside : Core) × (enable_temporarily table core ≡ done (guard, inside))
      × (inside.ttbr0 ≡ table)
      × (inside.irq_enabled ≡ false)
      × (drop guard (record inside { ttbr0 = between }) ≡ core)
unfolding enable_temporarily drop
drop-enable_temporarily table between core al al' = (
  record { old = core.ttbr0; new = table; irq_enabled = core.irq_enabled },
  record { ttbr0 = table; irq_enabled = if core.irq_enabled then false else core.irq_enabled },
  rw (page_new-aligned size4k core.ttbr0 al', page_new-aligned size4k table al) refl,
  refl,
  off core.irq_enabled,
  ap (λ b. record core { irq_enabled = b }) (back core.irq_enabled),
)
  where
    off : (b : Bool) → (if b then false else b) ≡ false
    off true = refl
    off false = refl

    back : (b : Bool) → (if b then true else (if b then false else b)) ≡ b
    back true = refl
    back false = refl
