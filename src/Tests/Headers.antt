-- ===== src/Tests/Headers.antt =====
-- The register header under reference.
use nspire_utils.Base.{◌≤◌, ◌<◌, bit_or, ◌≡◌, ◌↔◌, ◌⊎◌, refl, arith, ◌==◌, if◌then◌else◌}
use nspire_utils.Reference.Fifo.{inoutepmpsr_mps}
use nspire_utils.Reference.Fifo.Configuration.{
  double, of_512, configuration, settings, byte, configuration-byte,
}
use nspire_utils.Reference.Fifo.PacketSize.{inoutepmpsr_mps-keeps}

-- FIFO 1 is added to a register with FIFO 0 in it.
configuration-byte_example :
    byte 1 (bit_or 0x26 (configuration 3 double of_512 1))
    ≡ (if 1 == 1 then settings 3 double of_512 else byte 1 0x26)
configuration-byte_example =
    configuration-byte 0x26 3 double of_512 1 1 (omega arith) (omega arith) (omega arith) refl

inoutepmpsr_mps-keeps_example :
    (inoutepmpsr_mps 1024 ≡ 1024) ↔ ((1024 < 256) ⊎ ((512 ≤ 1024) × (1024 < 768)))
inoutepmpsr_mps-keeps_example = inoutepmpsr_mps-keeps 1024 (omega arith)
