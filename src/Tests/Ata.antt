-- ===== src/Tests/Ata.antt =====
-- The port accesses of kernel/disk.c for one sector.
use rink_os.Prelude.{◌≡◌, [], ◌∷◌, arith}
use rink_os.Disk.{zero_buf}
use rink_os.Ata.{read_actions, write_actions}
use rink_os.Ata.Address.{commands, commands-actions}

commands-actions_example :
    (commands zero_buf (read_actions 0x0ABCDEF) ≡ (0x20, 0x0ABCDEF, 1) ∷ [])
    × (commands zero_buf (write_actions 0x0ABCDEF zero_buf)
        ≡ (0x30, 0x0ABCDEF, 1) ∷ (0xE7, 0x0ABCDEF, 1) ∷ [])
commands-actions_example = commands-actions 0x0ABCDEF zero_buf zero_buf (omega arith)
