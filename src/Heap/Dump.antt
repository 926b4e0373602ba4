-- ===== src/Heap/Dump.antt =====
-- `mmap_dump` of kernel/mm.c, as the text that it prints. The map that the boot loader leaves has
-- less than 2 ^ 16 entries, the range of its count.
use rink_os.Prelude.{ℕ, ◌%◌, ◌^◌, List, [], ◌∷◌, ◌++◌, codes, length}
use rink_os.Print.{hex32}
use rink_os.Heap.{MmapEntry}

-- The lower words of the base and the length, and the type.
unfoldable pub mmap_line : MmapEntry → List ℕ
mmap_line e =
    codes "  base="
    ++ hex32 (e.base % 2 ^ 32)
    ++ codes " len="
    ++ hex32 (e.length % 2 ^ 32)
    ++ codes " type="
    ++ hex32 e.type_code
    ++ codes "\n"

unfoldable pub mmap_lines : List MmapEntry → List ℕ
unfolding mmap_line
mmap_lines [] = []
mmap_lines (e ∷ es) = mmap_line e ++ mmap_lines es

unfoldable pub mmap_dump : List MmapEntry → List ℕ
unfolding mmap_lines
mmap_dump entries =
    codes "Memory map entries: "
    ++ hex32 (length entries % 2 ^ 16)
    ++ codes "\n"
    ++ mmap_lines entries
