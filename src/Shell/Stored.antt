-- ===== src/Shell/Stored.antt =====
-- What the commands of kernel/shell.c do to a file, from the line typed to the text shown.
use rink_os.Prelude.{
  ℕ, ◌≤◌, ◌≡◌, ◌≢◌, ◌∙◌, refl, ap, sym, true, false, some, List, [], ◌∷◌, ◌++◌, arith, length,
  codes, ◌==◌,
}
use rink_os.Volume.{Volume, ok}
use rink_os.Print.{print_uint}
use rink_os.Fat.Room.{Distinct}
use rink_os.Fat.Chain.{Chain, free_all}
use rink_os.Dirent.{Dirent, is_directory}
use rink_os.Dir.{EntryLoc}
use rink_os.Files.{clusters_for, fs_write, fs_read}
use rink_os.Files.Blocks.Total.{AllFree}
use rink_os.Files.Blocks.Round.{FitsWord}
use rink_os.Files.Round.{IsLeaf, root_entry, fs_read-fs_write}
use rink_os.Machine.{Machine, Event, shows, step, after-nil}
use rink_os.Shell.{file_command, skip_space, str_eq}
use rink_os.Shell.Words.{IsString, IsName, until_nul-IsString, name_and_rest-name}
use rink_os.Shell.Files.{cmd_write, cmd_cat}
use rink_os.Shell.History.{history_add}
use rink_os.Shell.Command.{after_word, dispatch_files, dispatch, run_command}

abbrev pub write_line : List ℕ → List ℕ → List ℕ
write_line name text = codes "write " ++ name ++ b' ' ∷ text

abbrev pub cat_line : List ℕ → List ℕ
cat_line name = codes "cat " ++ name

abbrev reports : List ℕ → List ℕ → List Event
reports name text =
    shows (codes "Write ")
    ∷ shows (print_uint (length text))
    ∷ shows (codes " bytes to ")
    ∷ shows name
    ∷ shows (codes "\n")
    ∷ []

abbrev with_volume : Volume → Machine → Machine
with_volume w m = record m { volume = w }

write-dispatch :
    (name text : List ℕ) (m : Machine)
    → run_command (write_line name text) m
      ≡ cmd_write (b' ' ∷ name ++ b' ' ∷ text) (history_add (write_line name text) m)
unfolding run_command dispatch dispatch_files str_eq after_word
write-dispatch name text m =
    let ne : (length (write_line name text) == 0) ≡ false = ground arith in rw ne (after-nil _)

cat-dispatch :
    (name : List ℕ) (m : Machine)
    → run_command (cat_line name) m ≡ cmd_cat (b' ' ∷ name) (history_add (cat_line name) m)
unfolding run_command dispatch dispatch_files str_eq after_word
cat-dispatch name m =
    let ne : (length (cat_line name) == 0) ≡ false = ground arith in rw ne (after-nil _)

cmd_write-ok :
    (name text : List ℕ) (m : Machine) (w : Volume)
    → IsName name
    → fs_write name text m.volume ≡ ok tt w
    → cmd_write (b' ' ∷ name ++ b' ' ∷ text) m ≡ step tt (reports name text) (with_volume w m)
unfolding cmd_write file_command
cmd_write-ok name text m w h wrote =
    let ne : (length name == 0) ≡ false = ground (arith, h.some_byte) in
    rw (name_and_rest-name name text h, ne, wrote) refl

cmd_cat-ok :
    (name text : List ℕ) (m : Machine) (w : Volume)
    → length name ≢ 0
    → IsString text
    → fs_read name 4095 m.volume ≡ ok text w
    → cmd_cat (b' ' ∷ name) m ≡ step tt (shows text ∷ shows (codes "\n") ∷ []) (with_volume w m)
unfolding cmd_cat skip_space file_command
cmd_cat-ok name text m w some_byte string read =
    let ne : (length name == 0) ≡ false = ground (arith, some_byte) in
    rw (ne, read, until_nul-IsString text string) refl

history_add-volume : (line : List ℕ) (m : Machine) → (history_add line m).volume ≡ m.volume
unfolding history_add
history_add-volume line m = ground arith

module _ (m : Machine) (name text : List ℕ) (h : IsName name) (string : IsString text)
    (short : length text ≤ 4095) where
  write-cat-runs :
      (w : Volume)
      → fs_write name text m.volume ≡ ok tt w
      → fs_read name 4095 w ≡ ok text w
      → (run_command (write_line name text) m
          ≡ step tt (reports name text) (with_volume w (history_add (write_line name text) m)))
        × ((m' : Machine)
            → m'.volume ≡ w
            → run_command (cat_line name) m'
              ≡ step tt (shows text ∷ shows (codes "\n") ∷ []) (history_add (cat_line name) m'))
  write-cat-runs w wrote read = (
    write-dispatch name text m
        ∙ cmd_write-ok name text (history_add (write_line name text) m) w h
            (rw (history_add-volume (write_line name text) m) wrote),
    λ m' same.
        let later = history_add (cat_line name) m' in
        let here : later.volume ≡ w = history_add-volume (cat_line name) m' ∙ same in
        cat-dispatch name m'
        ∙ cmd_cat-ok name text later w h.some_byte string (rw here read)
        ∙ ap (λ v. step tt (shows text ∷ shows (codes "\n") ∷ []) (with_volume v later)) (sym here),
  )

  -- Where the name is one word of less than 64 bytes that names a file in the root, the current
  -- directory, whose old contents are a chain that ends, and the text has no NUL, at most 4095
  -- bytes and enough distinct free clusters once that chain is freed: the line of write, the name
  -- and the text stores the text and reports its length, and in any machine with the volume that
  -- it leaves the line of cat and the name shows the text and a new line and changes only the
  -- history.
  pub cat-write :
      (e : Dirent) (loc : EntryLoc) (cs room : List ℕ)
      → IsLeaf name
      → m.volume.cwd_is_root ≡ true
      → root_entry m.volume name ≡ some (e, loc)
      → is_directory e ≡ false
      → Chain m.volume.disk e.first_cluster cs
      → Distinct room
      → AllFree (free_all cs m.volume.disk) room
      → clusters_for (length text) ≤ length room
      → (w : Volume) × (run_command (write_line name text) m
          ≡ step tt (reports name text) (with_volume w (history_add (write_line name text) m)))
        × ((m' : Machine)
            → m'.volume ≡ w
            → run_command (cat_line name) m'
              ≡ step tt (shows text ∷ shows (codes "\n") ∷ []) (history_add (cat_line name) m'))
  cat-write e loc cs room leaf root found file chain distinct free enough =
      let fits : FitsWord (length text) = omega (arith, short) in
      let (w, wrote, read) =
        fs_read-fs_write m.volume name text e loc cs room leaf root found file chain fits distinct
          free enough in
      let (stores, shown) = write-cat-runs w wrote (read 4095 short) in (w, stores, shown)
